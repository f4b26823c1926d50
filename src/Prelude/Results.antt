-- ===== src/Prelude/Results.antt =====
-- The value of a call, or the exception that it raised.
pub data Result (X A : Type 0) : Type 0 where
  ok : A → Result X A
  err : X → Result X A
