-- ===== src/Mqtt/Session/Answers.antt =====
-- mqtt/AnuDBMqttClient.cpp: what a handler went through that left "success" in the response.
use anu_db.Base.{
  ◌≡◌, refl, ap, ◌∙◌, sym, ◌⊎◌, inl, inr, Bool, true, false, ◌++◌, Option, none, some, Bytes, codes,
  lookup, if◌then◌else◌, ◌==◌, bytes_eq, arith, Bool-cases, Option-cases, contains, insert,
}
use anu_db.Exec.{
  Exec, Result, Try, returns, raises, crashes, stops, gives, throws, ◌>>=◌, ◌>>◌, ◌>>?◌, and_then,
  pure, and_then-returns, lift-returns, try_catch,
}
use anu_db.Json.{Json}
use anu_db.Json.Contract
use anu_db.RocksDb.{RocksDb}
use anu_db.Engine.{Engine, collection_exists}
use anu_db.Database.{Database, get_collection}
use anu_db.Mqtt.Session.{
  Session, Pointer, live, dangling, null, answer, say, answered, guarded, text_at, find_collection,
  on_collection, through, in_session, set_coll_map,
}

module _ ⦃R : RocksDb⦄ ⦃J : Json⦄ (LJ : Contract.IsLawful J) where
  -- The response has a text at a key.
  abbrev pub Says : Bytes → Bytes → Session R J → Type 0
  Says key text s = J.find s.resp key ≡ some (J.string_value text)

  string_value_inj : (a b : Bytes) → J.string_value a ≡ J.string_value b → a ≡ b
  string_value_inj a b h =
      let e : gives a ≡ gives b =
        sym (LJ.get_string-string_value a) ∙ ap J.get_string h ∙ LJ.get_string-string_value b in
      ground (arith, e)

  pub answer-returns :
      (key text : Bytes) (s s' : Session R J)
      → answer key text s ≡ (returns tt, s')
      → (s'.database ≡ s.database)
        × ((k : Bytes)
            → J.find s'.resp k ≡ (if k == key then some (J.string_value text) else J.find s.resp k))
  answer-returns key text s s' r = go (J.set_member s.resp key (J.string_value text)) refl r
    where
      go :
          (t : Try J.Value)
          → J.set_member s.resp key (J.string_value text) ≡ t
          → answered s t ≡ (returns tt, s')
          → (s'.database ≡ s.database)
            × ((k : Bytes)
                → J.find s'.resp k
                  ≡ (if k == key then some (J.string_value text) else J.find s.resp k))
      go (gives v) q r' =
          let s_is : s' ≡ record s { resp = v } = ground arith in
          (
            ap (λ t. t.database) s_is,
            λ k. rw s_is (LJ.find-set_member s.resp key k (J.string_value text) v q),
          )
      go (throws m) q r' = absurd (ground arith)

  pub say-returns :
      (status message : Bytes) (s s' : Session R J)
      → say status message s ≡ (returns tt, s')
      → (s'.database ≡ s.database) × Says (codes "status") status s'
  unfolding bytes_eq
  say-returns status message s s' r =
      let (u, s1, first, second) =
        and_then-returns (answer (codes "status") status s) (λ u. answer (codes "message") message)
          tt s' r in
      let (d, f) = answer-returns (codes "status") status s s1 first in
      let (d', f') = answer-returns (codes "message") message s1 s' second in
      (d' ∙ d, f' (codes "status") ∙ f (codes "status"))

  -- A status that says "success" was not another text.
  pub Says-one :
      (status : Bytes) (s : Session R J)
      → Says (codes "status") status s
      → Says (codes "status") (codes "success") s
      → status ≡ codes "success"
  Says-one status s h h' =
      let e : some (J.string_value status) ≡ some (J.string_value (codes "success")) = sym h ∙ h' in
      string_value_inj status (codes "success") (ground (arith, e))

  pub error_excludes :
      (s : Session R J)
      → Says (codes "status") (codes "error") s
      → ¬ Says (codes "status") (codes "success") s
  error_excludes s h h' =
      let e : codes "error" ≡ codes "success" = Says-one (codes "error") s h h' in cc

  -- A response of success comes from the body of a try block, not from the handler of its exceptions.
  pub caught_success :
      (body : Exec (Session R J) (Unit {0})) (text : Bytes → Bytes) (s s' : Session R J)
      → try_catch body (λ m. say (codes "error") (text m)) s ≡ (returns tt, s')
      → Says (codes "status") (codes "success") s'
      → body s ≡ (returns tt, s')
  caught_success body text s s' r h = go (body s) refl r
    where
      go :
          (p : Result (Unit {0}) × Session R J)
          → body s ≡ p
          → try_catch (λ s1. p) (λ m. say (codes "error") (text m)) s ≡ (returns tt, s')
          → body s ≡ (returns tt, s')
      go (returns u, s1) q r' = q ∙ r'
      go (raises m, s1) q r' =
          let (d, f) = say-returns (codes "error") (text m) s1 s' r' in
          absurd (error_excludes s' f h)
      go (crashes, s1) q r' = absurd (ground arith)
      go (stops, s1) q r' = absurd (ground arith)

  get_collection-engine :
      (name : Bytes) (d : Database R) → (get_collection name d).1.engine ≡ d.engine
  unfolding get_collection
  get_collection-engine name d = elim (Bool-cases (contains d.collections name)) [
    | inl held ↦ rw held
    | inr free ↦ elim (Bool-cases (collection_exists name d.engine)) [
      | inl there ↦ rw (free, there)
      | inr absent ↦ rw (free, absent)
    ]
  ]

  pub find_collection-returns :
      (name : Bytes) (s s' : Session R J) (found : Bool)
      → find_collection name s ≡ (returns found, s')
      → (s'.database.engine ≡ s.database.engine)
        × (((found ≡ true) × (s'.resp ≡ s.resp))
            ⊎ ((found ≡ false) × Says (codes "status") (codes "error") s'))
  find_collection-returns name s s' found r = elim (Option-cases (lookup name s.coll_map)) [
    | inr (p, there) ↦
        let r' : (returns true, s) ≡ (returns found, s') = rw there at r in
        (
          ap (λ q. q.1.database.engine) (sym r'),
          inl (ground (arith, r'), ap (λ q. q.1.resp) (sym r')),
        )
    | inl missing ↦ go (get_collection name s.database) refl (rw missing at r)
  ]
    where
      go :
          (p : Result Bool × Database R)
          → get_collection name s.database ≡ p
          → and_then (in_session s p) (λ held.
            if held
            then (set_coll_map (λ m. insert name live m) >> pure true)
            else (say (codes "error") (codes "Collection :" ++ (name ++ codes " is not found"))
                >> pure false))
            ≡ (returns found, s')
          → (s'.database.engine ≡ s.database.engine)
            × (((found ≡ true) × (s'.resp ≡ s.resp))
                ⊎ ((found ≡ false) × Says (codes "status") (codes "error") s'))
      go (returns true, d) q r' = (
        ap (λ x. x.1.database.engine) (sym r')
            ∙ (ap (λ x. x.1.engine) (sym q) ∙ get_collection-engine name s.database),
        inl (ground (arith, r'), ap (λ x. x.1.resp) (sym r')),
      )
      go (returns false, d) q r' =
          let m = codes "Collection :" ++ (name ++ codes " is not found") in
          let (u, s1, first, second) =
            and_then-returns (say (codes "error") m (record s { database = d })) (λ u. pure false)
              found s' r' in
          let (same, says) = say-returns (codes "error") m (record s { database = d }) s1 first in
          let s_is : s1 ≡ s' = ap (λ x. x.1) second in
          (
            ap (λ x. x.database.engine) (sym s_is)
                ∙ (ap (λ x. x.engine) same
                    ∙ (ap (λ x. x.1.engine) (sym q) ∙ get_collection-engine name s.database)),
            inr (ground (arith, second), rw s_is at says),
          )
      go (raises m, d) q r' = absurd (ground arith)
      go (crashes, d) q r' = absurd (ground arith)
      go (stops, d) q r' = absurd (ground arith)

  -- A call through a pointer that returned was a call of the engine.
  pub on_collection-returns :
      {A : Type 0} (name : Bytes) (m : Exec (Engine R) A) (s s' : Session R J) (a : A)
      → on_collection name m s ≡ (returns a, s')
      → (m s.database.engine ≡ (returns a, s'.database.engine)) × (s'.resp ≡ s.resp)
  on_collection-returns name m s s' a r = go (lookup name s.coll_map) r
    where
      go :
          (p : Option Pointer)
          → through p m s ≡ (returns a, s')
          → (m s.database.engine ≡ (returns a, s'.database.engine)) × (s'.resp ≡ s.resp)
      go (some live) r' = (ap (λ x. (x.0, x.1.database.engine)) r', ap (λ x. x.1.resp) (sym r'))
      go (some dangling) r' = absurd (ground arith)
      go (some null) r' = absurd (ground arith)
      go none r' = absurd (ground arith)

  -- The frame of every handler: the name of the collection, its pointer, and then the rest.
  pub handler_success :
      (req : J.Value) (rest : Bytes → Exec (Session R J) (Unit {0})) (s s' : Session R J)
      → guarded
          (text_at req (codes "collection_name") >>= λ name.
            find_collection name >>= λ found. if found then rest name else pure tt)
          s
        ≡ (returns tt, s')
      → Says (codes "status") (codes "success") s'
      → (name : Bytes) × (s1 : Session R J) × ((J.at_key req (codes "collection_name") >>? λ v.
            J.get_string v)
          ≡ gives name)
        × (s1.database.engine ≡ s.database.engine)
        × (s1.resp ≡ s.resp)
        × (rest name s1 ≡ (returns tt, s'))
  handler_success req rest s s' r h =
      let tail : Bytes → Exec (Session R J) (Unit {0}) =
        λ name. find_collection name >>= λ found. if found then rest name else pure tt in
      let t = J.at_key req (codes "collection_name") >>? λ v. J.get_string v in
      let whole =
        caught_success (text_at req (codes "collection_name") >>= tail)
          (λ m. codes "Exception: " ++ m) s s' r h in
      let (name, s0, read, after) =
        and_then-returns (text_at req (codes "collection_name") s) tail tt s' whole in
      let (named, s_is) = lift-returns t name s s0 read in
      let (found, s1, asked, body) =
        and_then-returns (find_collection name s0) (λ f. if f then rest name else pure tt) tt s'
          after in
      let (engine_is, either) = find_collection-returns name s0 s1 found asked in
      let engine_is' = engine_is ∙ ap (λ x. x.database.engine) (sym s_is) in
      elim either [
        | inl (yes_found, resp_is) ↦ (
          name,
          s1,
          named,
          engine_is',
          resp_is ∙ ap (λ x. x.resp) (sym s_is),
          rw yes_found at body,
        )
        | inr (not_found, says) ↦
            let s1_is : s1 ≡ s' = ap (λ x. x.1) (rw not_found at body) in
            absurd (error_excludes s' (rw s1_is at says) h)
      ]

  -- The response of a handler that created or deleted a document.
  pub success-returns :
      (id message : Bytes) (s s' : Session R J)
      → (answer (codes "status") (codes "success")
            >> (answer (codes "docId") id >> answer (codes "message") message))
          s
        ≡ (returns tt, s')
      → (s'.database ≡ s.database) × Says (codes "docId") id s'
  unfolding bytes_eq
  success-returns id message s s' r =
      let third : Exec (Session R J) (Unit {0}) = answer (codes "message") message in
      let second : Exec (Session R J) (Unit {0}) = answer (codes "docId") id >> third in
      let (u1, s1, r1, t1) =
        and_then-returns (answer (codes "status") (codes "success") s) (λ u. second) tt s' r in
      let (u2, s2, r2, t2) =
        and_then-returns (answer (codes "docId") id s1) (λ u. third) tt s' t1 in
      let (d1, f1) = answer-returns (codes "status") (codes "success") s s1 r1 in
      let (d2, f2) = answer-returns (codes "docId") id s1 s2 r2 in
      let (d3, f3) = answer-returns (codes "message") message s2 s' t2 in
      (d3 ∙ (d2 ∙ d1), f3 (codes "docId") ∙ f2 (codes "docId"))
