-- ===== src/Ingestion/Suffixes.antt =====
-- The file types that ingestion/parser.py takes.
use invoice_to_payment_agent.Prelude.{Bool, false, ◌||◌, List, [], ◌∷◌, map}
use invoice_to_payment_agent.Prelude.Text.{Text, codes, text_eq}

-- `SUPPORTED_SUFFIXES` of ingestion/parser.py
abbrev pub supported_suffixes : List Text
supported_suffixes = map codes (
    ".pdf" ∷ ".png" ∷ ".jpg" ∷ ".jpeg" ∷ ".tiff" ∷ ".tif" ∷ ".bmp" ∷ ".docx" ∷ ".xlsx" ∷ ".pptx"
    ∷ ".html" ∷ ".htm" ∷ ".txt" ∷ ".md" ∷ ".eml" ∷ [])

abbrev pub has_text : Text → List Text → Bool
has_text t [] = false
has_text t (s ∷ ss) = text_eq t s || has_text t ss
