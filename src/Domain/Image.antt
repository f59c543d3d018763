-- ===== src/Domain/Image.antt =====
-- internal/domain/image.go and ref.go: an analyzed image, its layers and its history.
use layerlens.Base.{ℕ, Bool, List, Bytes}

pub record Layer : Type 0 where
  pub index : ℕ
  pub diff_id : Bytes
  pub chain_id : Bytes
  pub compressed_digest : Bytes
  pub compressed_size : ℕ
  pub content_bytes : ℕ
  pub entry_count : ℕ
  pub changeset_digest : Bytes
  pub instruction : Bytes
  pub instruction_raw : Bytes
  pub instruction_known : Bool

-- A time is the nanoseconds since an epoch that no time precedes.
pub record ImageRecord : Type 0 where
  pub id : Bytes
  pub manifest_digest : Bytes
  pub ref_names : List Bytes
  pub source : Bytes
  pub platform : Bytes
  pub created_at : ℕ
  pub ingested_at : ℕ
  pub last_used_at : ℕ
  pub pinned : Bool
  pub layers : List Layer
  pub total_bytes : ℕ

pub record HistoryEntry : Type 0 where
  pub created_by : Bytes
  pub comment : Bytes
  pub empty_layer : Bool

-- A parsed reference that the allowlist has let through.
pub record ImageRef : Type 0 where
  pub raw : Bytes
  pub registry : Bytes
  pub repository : Bytes
  pub tag : Bytes
  pub digest : Bytes
