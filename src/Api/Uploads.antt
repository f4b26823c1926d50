-- ===== src/Api/Uploads.antt =====
-- The uploads of api/v1/ingest.py.
use invoice_to_payment_agent.Prelude.{
  ◌++◌, ℕ, ◌+◌, ◌*◌, ◌≤◌, ◌≡◌, ◌↔◌, Bool, true, false, Option, none, List, [], ◌∷◌, Result, ok, err,
  if◌then◌else◌, ltb, inl, inr, Bool-cases, arith, refl,
}
use invoice_to_payment_agent.Prelude.Text.{text_eq, lower, text_or, codes, Text}
use invoice_to_payment_agent.Schemas.Common.{WorkflowKind, api_upload}
use invoice_to_payment_agent.Erp.Client.{ErpClient}
use invoice_to_payment_agent.Agents.World.{External, AppConfig}
use invoice_to_payment_agent.Service.State.{Host, Service, StartRequest, Summary}
use invoice_to_payment_agent.Ingestion.Suffixes.{supported_suffixes, has_text}
use invoice_to_payment_agent.Service.Summary.{Answer}
use invoice_to_payment_agent.Service.Start.{start_run}
use invoice_to_payment_agent.Api.Errors.{
  ApiError, http_error, domain_error, unsupported_type, too_large, Response,
}

abbrev pub max_upload_bytes : ℕ
max_upload_bytes = 25 * 1024 * 1024

-- An upload: its file name, the sizes of the chunks in which it is read, and the directory that is
-- made for it.
pub record Upload : Type 0 where
  pub filename : Option Text
  pub chunks : List ℕ
  pub tmp_dir : Text

-- The suffix of the name, for which `pathlib` is asked.
abbrev upload_suffix : (Text → Text) → Upload → Text
upload_suffix suffix upload = lower (suffix (text_or upload.filename (codes "upload.pdf")))

unfoldable pub is_supported : (Text → Text) → Upload → Bool
unfolding lower text_eq
is_supported suffix upload = has_text (upload_suffix suffix upload) supported_suffixes

abbrev upload_target : Host → (Text → Text) → Upload → Text
upload_target host suffix upload =
    host.join upload.tmp_dir
      (host.file_name (text_or upload.filename (codes "upload" ++ upload_suffix suffix upload)))

-- The loop over the chunks.
unfoldable pub spool_chunks : ℕ → List ℕ → Result ApiError ℕ
spool_chunks size [] = ok size
spool_chunks size (chunk ∷ chunks) =
    let rest = spool_chunks (size + chunk) chunks in
    if ltb max_upload_bytes (size + chunk) then err (http_error 413 too_large) else rest

abbrev written : Text → Result ApiError ℕ → Result ApiError Text
written target (ok size) = ok target
written target (err error) = err error

-- `_spool_upload`
unfoldable pub spool_upload : Host → (Text → Text) → Upload → Result ApiError Text
unfolding spool_chunks is_supported
spool_upload host suffix upload =
    if is_supported suffix upload
    then written (upload_target host suffix upload) (spool_chunks 0 upload.chunks)
    else err (http_error 415 unsupported_type)

pub record Form : Type 0 where
  pub sender : Option Text
  pub subject : Option Text
  pub message_id : Option Text

abbrev upload_request : WorkflowKind → Form → Text → StartRequest
upload_request kind form path = record {
  document_path = path;
  kind = kind;
  source = api_upload;
  message_id = form.message_id;
  sender = form.sender;
  subject = form.subject;
  mailbox = none;
}

module _ {E : Type 0} where
  abbrev started : Answer E → Response Summary E
  started (ok summary, sv) = (ok summary, sv)
  started (err error, sv) = (err (domain_error error), sv)

module _ {E : Type 0} (host : Host) (x : External) (cfg : AppConfig) (client : ErpClient E) where
  abbrev ingest_spooled :
      WorkflowKind → Form → Result ApiError Text → Service E → Response Summary E
  ingest_spooled kind form (err error) sv = (err error, sv)
  ingest_spooled kind form (ok path) sv =
      started (start_run host x cfg client (upload_request kind form path) sv)

  -- `ingest_invoice` and `ingest_remittance`
  unfoldable pub ingest :
      (Text → Text) → WorkflowKind → Upload → Form → Service E → Response Summary E
  unfolding spool_upload start_run
  ingest suffix kind upload form sv = ingest_spooled kind form (spool_upload host suffix upload) sv

abbrev pub total_size : List ℕ → ℕ
total_size [] = 0
total_size (chunk ∷ chunks) = chunk + total_size chunks

abbrev pub is_accepted : {A : Type 0} → Result ApiError A → Bool
is_accepted (ok a) = true
is_accepted (err error) = false

spool_chunks-accepts :
    (size : ℕ) (chunks : List ℕ)
    → size ≤ max_upload_bytes
    → (is_accepted (spool_chunks size chunks) ≡ true)
      ↔ (size + total_size chunks ≤ max_upload_bytes)
unfolding spool_chunks
spool_chunks-accepts size [] h = (λ e. omega arith, λ le. refl)
spool_chunks-accepts size (chunk ∷ chunks) h =
    elim (Bool-cases (ltb max_upload_bytes (size + chunk))) [
      | inl e ↦ rw e (λ t. cc, λ le. ground arith)
      | inr e ↦
          let (to, from) = spool_chunks-accepts (size + chunk) chunks (ground arith) in
          rw e (λ t. omega (arith, to t), λ le. from (omega arith))
    ]

written-accepts :
    (target : Text) (r : Result ApiError ℕ)
    → (is_accepted (written target r) ≡ true) ↔ (is_accepted r ≡ true)
written-accepts target (ok size) = (λ e. e, λ e. e)
written-accepts target (err error) = (λ e. e, λ e. e)

-- An upload is accepted exactly if its type is supported and its chunks make at most 25 MiB
-- together.
pub spool_upload-accepts :
    (host : Host) (suffix : Text → Text) (upload : Upload)
    → (is_accepted (spool_upload host suffix upload) ≡ true)
      ↔ ((is_supported suffix upload ≡ true) × (total_size upload.chunks ≤ max_upload_bytes))
unfolding spool_upload
spool_upload-accepts host suffix upload = elim (Bool-cases (is_supported suffix upload)) [
  | inl e ↦
      let target = upload_target host suffix upload in
      let (to, from) = written-accepts target (spool_chunks 0 upload.chunks) in
      let (to', from') = spool_chunks-accepts 0 upload.chunks (omega arith) in
      rw e (
        λ t. let le = to' (to t) in (refl, omega arith),
        λ p. let le = p.1 in from (from' (omega arith)),
      )
  | inr e ↦ rw e (λ t. cc, λ p. cc)
]
