-- ===== src/Document/Stored.antt =====
-- A document through MessagePack and back.
use anu_db.Base.{◌≡◌, [], ◌∷◌, codes, lookup, bytes_eq, ap, ◌∙◌, ℕ_discrete}
use anu_db.Exec.{gives}
use anu_db.Json.{Json}
use anu_db.Json.Contract.{IsLawful}
use anu_db.Document.{Document, to_msgpack, from_msgpack}
use mathlib.Core.Option
use mathlib.Core.Option.{get_or}

module _ ⦃J : Json⦄ (L : IsLawful J) where
  -- A document that is stored and read has its identifier, and its value as MessagePack keeps it.
  pub from_msgpack-to_msgpack :
      (d : Document J)
      → from_msgpack (to_msgpack d) ≡ gives (record d { data_value = L.reread d.data_value })
  unfolding from_msgpack to_msgpack lookup bytes_eq ℕ_discrete
  from_msgpack-to_msgpack d =
      let fields = (codes "_id", J.string_value d.id) ∷ (codes "data", d.data_value) ∷ [] in
      let o = L.kind-reread (J.object_value fields) ∙ L.kind-object_value fields in
      let idv =
        L.find-reread (J.object_value fields) (codes "_id")
        ∙ ap (Option.map L.reread) (L.find-object_value fields (codes "_id")) in
      let dv =
        L.find-reread (J.object_value fields) (codes "data")
        ∙ ap (Option.map L.reread) (L.find-object_value fields (codes "data")) in
      rw (
        L.from_msgpack-to_msgpack (J.object_value fields),
        L.at_key_object _ (codes "_id") o,
        idv,
        L.get_string-reread (J.string_value d.id),
        L.get_string-string_value d.id,
        L.at_key_object _ (codes "data") o,
        dv,
      )
