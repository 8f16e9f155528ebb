-- ===== src/Rds/Defs.antt =====
-- internal/rds/def.go, and the client of Redis that the store calls.
use galopush.Prelude.{ℕ, Bytes, Bool, List, Option}

pub record Item : Type 0 where
  pub web_online : Bool
  pub msg : Bytes

pub record Push : Type 0 where
  pub off_cnt : ℕ
  pub msg : Bytes

pub record Body : Type 0 where
  pub push : Push
  pub cb : List Item
  pub im : List Item

pub record Session : Type 0 where
  pub id : Bytes
  pub plat : ℕ
  pub online : Bool
  pub login : Bool
  pub auth_code : Bytes
  pub ios_token : Bytes
  pub off_msg : Body

-- `Sess []*Session`: pointers, as indices into the heap of `Session` structures.
pub record Sessions : Type 0 where
  pub id : Bytes
  pub comet_id : Bytes
  pub sess : List ℕ

-- The JSON document of a `Sessions`: the structures that it points to, by value.
pub record Document : Type 0 where
  pub id : Bytes
  pub comet_id : Bytes
  pub sess : List Session

-- The Redis client, a package outside the repository: `Get` gives the document under a key, or
-- nothing when it fails or the text is no such document; `Set` says whether it succeeded.
pub record Redis (R : Type 0) : Type 0 where
  pub get : R → Bytes → Option Document
  pub put : R → Bytes → Document → R × Bool
