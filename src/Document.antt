-- ===== src/Document.antt =====
-- src/Document.{h,cpp}: a document is an identifier and a JSON value; applyUpdate changes the value.
-- Its pointer `current` into the value is a recursion that puts the changed child back.
pub mod Paths
pub mod Update
pub mod Stored
use anu_db.Base.{Bool, true, false, List, [], ◌∷◌, Option, none, some, Bytes, codes}
use anu_db.Exec.{Exec, Try, gives, throws, ◌>>?◌}
use anu_db.Json.{Json}

pub record Document (J : Json) : Type 0 where
  pub id : Bytes
  pub data_value : J.Value

module _ ⦃J : Json⦄ where
  abbrev pub is_found : Option J.Value → Bool
  is_found none = false
  is_found (some x) = true

  unfoldable pub has_field : Bytes → Document J → Bool
  has_field field d = is_found (J.find d.data_value field)

  unfoldable pub set_value : Bytes → J.Value → Document J → Try (Document J)
  set_value field x d =
      J.set_member d.data_value field x >>? λ v. gives (record d { data_value = v })

  unfoldable pub to_msgpack : Document J → Bytes
  to_msgpack d =
      J.to_msgpack
        (J.object_value ((codes "_id", J.string_value d.id) ∷ (codes "data", d.data_value) ∷ []))

  -- A missing "_id" is read as null, which is no string.
  unfoldable pub from_msgpack : Bytes → Try (Document J)
  from_msgpack bytes = J.from_msgpack bytes >>? λ j. J.at_key j (codes "_id") >>? λ idv.
      J.get_string idv >>? λ id.
      J.at_key j (codes "data") >>? λ d. gives (record { id = id; data_value = d })

  unfoldable pub from_json : Bytes → Bytes → Try (Document J)
  from_json id text = J.parse text >>? λ v. gives (record { id = id; data_value = v })

  unfoldable pub to_json : Document J → Try Bytes
  to_json d = J.dump d.data_value
