-- ===== src/Model.antt =====
-- tools/fingerprint/model.py: the evidence that the parsers and the comparators share. `bytes` is a
-- list of numbers, and a tuple is a list.
use foxreq.Prelude.{ℕ, List}
use foxreq.Prelude.Text.{Text}

pub record TlsExtension : Type 0 where
  pub type_id : ℕ
  pub payload : List ℕ

pub record ClientHello : Type 0 where
  pub legacy_version : ℕ
  pub random : List ℕ
  pub session_id : List ℕ
  pub cipher_suites : List ℕ
  pub compression_methods : List ℕ
  pub extensions : List TlsExtension

pub record Fingerprint : Type 0 where
  pub raw : Text
  pub digest : Text

pub record H2Frame : Type 0 where
  pub length : ℕ
  pub type_id : ℕ
  pub flags : ℕ
  pub stream_id : ℕ
  pub payload : List ℕ

pub record Setting : Type 0 where
  pub identifier : ℕ
  pub value : ℕ
