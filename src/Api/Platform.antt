-- ===== src/Api/Platform.antt =====
-- What the interfaces are given: the libraries, all parameters, and how errors are worded. JSON is
-- `serde_json`, the tables are `redb`, signatures `ed25519_dalek`, digests Blake3, and lower-casing
-- follows the tables of Unicode. Error texts of the store hold those of `redb`, and are parameters.
use dsearch.Base.{ℕ, List, Text}
use dsearch.Model.{Serde}
use dsearch.Api.Response.{Json}
use dsearch.Sanitize.{SanitizeError}
use dsearch.Search.Scoring.{Floats}
use dsearch.Storage.Db.{StorageError}
use dsearch.Storage.Store as Store
use dsearch.Storage.Store.{StoreError}
use dsearch.Storage.Store.Search.{ListSerde}
use dsearch.Storage.Store.Signing.{SignatureBytes}
use dsearch.Storage.Table.{Redb}
use dsearch.Trust.Sign.{Ed25519}

pub record Platform : Type 1 where
  pub redb : Redb
  pub serde : Serde
  pub list_serde : ListSerde
  pub json : Json
  pub ed25519 : Ed25519
  pub signature_bytes : SignatureBytes ed25519
  pub floats : Floats
  pub to_lowercase : Text → Text
  pub blake3_hex : List ℕ → Text
  pub storage_error : StorageError → Text
  pub self_verification_error : Text
  pub sanitize_error : SanitizeError → Text

-- A store over these libraries.
abbrev pub StoreOf : Platform → Type 0
StoreOf P = Store.Store P.redb P.ed25519

-- The times an operation reads: instants are in nanoseconds, the clock in seconds since 1970.
pub record Clock : Type 0 where
  pub instant : ℕ
  pub now : ℕ
