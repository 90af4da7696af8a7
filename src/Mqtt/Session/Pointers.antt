-- ===== src/Mqtt/Session/Pointers.antt =====
-- mqtt/AnuDBMqttClient.cpp: the live pointers of collMap_ and the objects of the database, through the
-- parts that the handlers are made of.
use anu_db.Base.{
  ◌≡◌, inl, inr, Bool, true, false, ◌∷◌, ◌++◌, Option, none, some, Bytes, codes, lookup, insert,
  erase, if◌then◌else◌, ◌==◌, bytes_eq, arith, Bool-cases, contains, lookup-insert, lookup-erase,
  eq_self, eq_sound,
}
use anu_db.Exec.{
  Exec, Result, Try, returns, raises, crashes, stops, gives, throws, ◌>>=◌, ◌>>?◌, ◌>>◌, and_then,
  pure, lift, from_result, try_catch,
}
use anu_db.Json.{Json}
use anu_db.RocksDb.{RocksDb}
use anu_db.Engine.{Engine}
use anu_db.Database.{get_collection}
use anu_db.Database.Objects.{get_collection_cases}
use anu_db.Mqtt.Session.{
  Session, Pointer, live, dangling, null, answer, answered, say, guarded, text_at, find_collection,
  pointed, on_collection, on_database, through, set_coll_map, send,
}

module _ ⦃R : RocksDb⦄ ⦃J : Json⦄ where
  -- Every pointer of collMap_ is to the object that the database has under its name.
  abbrev pub Tracks : Session R J → Type 0
  Tracks s =
      (n : Bytes) (p : Pointer)
      → lookup n s.coll_map ≡ some p
      → (p ≡ live) × (contains s.database.collections n ≡ true)

  -- A program that crashed or that is stuck in a loop has no next request.
  abbrev pub Left : {A : Type 0} → Result A × Session R J → Type 0
  Left (returns a, s) = Tracks s
  Left (raises m, s) = Tracks s
  Left (crashes, s) = Unit
  Left (stops, s) = Unit

  abbrev pub Keeps : {A : Type 0} → Exec (Session R J) A → Type 0
  Keeps m = (s : Session R J) → Tracks s → Left (m s)

  pub ends : {A : Type 0} (r : Result A) (s : Session R J) → Tracks s → Left (r, s)
  ends (returns a) s t = t
  ends (raises m) s t = t
  ends crashes s t = tt
  ends stops s t = tt

  pub and_then-Left :
      {A B : Type 0} (p : Result A × Session R J) (f : A → Exec (Session R J) B)
      → Left p
      → ((a : A) → Keeps (f a))
      → Left (and_then p f)
  and_then-Left (returns a, s) f l k = k a s l
  and_then-Left (raises m, s) f l k = l
  and_then-Left (crashes, s) f l k = tt
  and_then-Left (stops, s) f l k = tt

  pub bind-Keeps :
      {A B : Type 0} (m : Exec (Session R J) A) (f : A → Exec (Session R J) B)
      → Keeps m
      → ((a : A) → Keeps (f a))
      → Keeps (m >>= f)
  bind-Keeps m f k l s t = and_then-Left (m s) f (k s t) l

  pub then-Keeps :
      {B : Type 0} (m : Exec (Session R J) (Unit {0})) (k : Exec (Session R J) B)
      → Keeps m
      → Keeps k
      → Keeps (m >> k)
  then-Keeps m k a b = bind-Keeps m (λ u. k) a (λ u. b)

  pub if-Keeps :
      {A : Type 0} (b : Bool) (m k : Exec (Session R J) A)
      → Keeps m
      → Keeps k
      → Keeps (if b then m else k)
  if-Keeps true m k x y = x
  if-Keeps false m k x y = y

  pub pure-Keeps : {A : Type 0} (a : A) → Keeps (pure a)
  pure-Keeps a s t = t

  pub lift-Keeps : {A : Type 0} (x : Try A) → Keeps (lift x)
  lift-Keeps (gives a) s t = t
  lift-Keeps (throws m) s t = t

  pub from_result-Keeps : {A : Type 0} (r : Result A) → Keeps (from_result r)
  from_result-Keeps r s t = ends r s t

  caught-Left :
      {A : Type 0} (p : Result A × Session R J) (f : Bytes → Exec (Session R J) A)
      (s0 : Session R J)
      → Left p
      → ((m : Bytes) → Keeps (f m))
      → Left (try_catch (λ s. p) f s0)
  caught-Left (returns a, s) f s0 l k = l
  caught-Left (raises m, s) f s0 l k = k m s l
  caught-Left (crashes, s) f s0 l k = tt
  caught-Left (stops, s) f s0 l k = tt

  pub try_catch-Keeps :
      {A : Type 0} (m : Exec (Session R J) A) (f : Bytes → Exec (Session R J) A)
      → Keeps m
      → ((e : Bytes) → Keeps (f e))
      → Keeps (try_catch m f)
  try_catch-Keeps m f k l s t = caught-Left (m s) f s (k s t) l

  pub answer-Keeps : (key text : Bytes) → Keeps (answer key text)
  answer-Keeps key text s t = go (J.set_member s.resp key (J.string_value text))
    where
      go : (x : Try J.Value) → Left (answered s x)
      go (gives v) = t
      go (throws m) = t

  pub say-Keeps : (status message : Bytes) → Keeps (say status message)
  say-Keeps status message =
      then-Keeps (answer (codes "status") status) (answer (codes "message") message)
        (answer-Keeps (codes "status") status) (answer-Keeps (codes "message") message)

  pub guarded-Keeps : (body : Exec (Session R J) (Unit {0})) → Keeps body → Keeps (guarded body)
  guarded-Keeps body k =
      try_catch-Keeps body (λ m. say (codes "error") (codes "Exception: " ++ m)) k
        (λ m. say-Keeps (codes "error") (codes "Exception: " ++ m))

  pub send-Keeps : (topic payload : Bytes) → Keeps (send topic payload)
  send-Keeps topic payload s t = t

  pub on_collection-Keeps :
      {A : Type 0} (name : Bytes) (m : Exec (Engine R) A) → Keeps (on_collection name m)
  on_collection-Keeps name m s t = go (lookup name s.coll_map)
    where
      go : (p : Option Pointer) → Left (through p m s)
      go (some live) = ends (m s.database.engine).0 _ t
      go (some dangling) = tt
      go (some null) = tt
      go none = tt

  -- A new pointer to an object, and one less.
  pub bound :
      (name : Bytes) (s : Session R J)
      → Tracks s
      → contains s.database.collections name ≡ true
      → Tracks (record s { coll_map = insert name live s.coll_map })
  bound name s t new n p q = elim (Bool-cases (n == name)) [
    | inl same ↦
        let p_is : some live ≡ some p = rw (lookup-insert, same) at q in
        (ground (arith, p_is), rw (eq_sound n name same) new)
    | inr other ↦ t n p (rw (lookup-insert, other) at q)
  ]

  pub erased : (name : Bytes) → Keeps (set_coll_map (λ m. erase name m))
  erased name s t n p q = elim (Bool-cases (n == name)) [
    | inl same ↦ absurd (let f : none ≡ some p = rw (lookup-erase, same) at q in ground (arith, f))
    | inr other ↦ t n p (rw (lookup-erase, other) at q)
  ]

  -- A new object for the collection tracks more.
  more :
      (name : Bytes) (s : Session R J)
      → Tracks s
      → Tracks (record s {
        database = record s.database { collections = name ∷ s.database.collections };
      })
  more name s t n p q = let (l, h) = t n p q in (l, ground (arith, h))

  -- getCollection, and then what is done with the pointer that it returns.
  pub get_collection-Keeps :
      {A : Type 0} (name : Bytes) (f : Bool → Exec (Session R J) A)
      → ((s : Session R J)
          → Tracks s
          → contains s.database.collections name ≡ true
          → Left (f true s))
      → Keeps (f false)
      → Keeps (on_database (get_collection name) >>= f)
  get_collection-Keeps name f found missing s t = elim (get_collection_cases name s.database) [
    | inl (held, q) ↦ rw q (found s t held)
    | inr (inl q) ↦ rw q (found _ (more name s t) (rw (eq_self name)))
    | inr (inr q) ↦ rw q (missing s t)
  ]

  pub find_collection-Keeps : (name : Bytes) → Keeps (find_collection name)
  find_collection-Keeps name s t = go (lookup name s.coll_map)
    where
      message : Bytes
      message = codes "Collection :" ++ (name ++ codes " is not found")

      bind : Bool → Exec (Session R J) Bool
      bind found =
          if found
          then (set_coll_map (λ m. insert name live m) >> pure true)
          else (say (codes "error") message >> pure false)

      go : (p : Option Pointer) → Left (pointed p name s)
      go (some p) = t
      go none =
          get_collection-Keeps name bind (λ s1 t1 held. bound name s1 t1 held)
            (then-Keeps (say (codes "error") message) (pure false)
              (say-Keeps (codes "error") message) (pure-Keeps false))
            s t

  pub text_at-Keeps : (req : J.Value) (key : Bytes) → Keeps (text_at req key)
  text_at-Keeps req key = lift-Keeps (J.at_key req key >>? λ v. J.get_string v)

  -- The frame of a handler.
  pub handler-Keeps :
      (req : J.Value) (rest : Bytes → Exec (Session R J) (Unit {0}))
      → ((name : Bytes) → Keeps (rest name))
      → Keeps (
          guarded (
            text_at req (codes "collection_name") >>= λ name.
            find_collection name >>= λ found. if found then rest name else pure tt))
  handler-Keeps req rest k =
      let tail : Bytes → Exec (Session R J) (Unit {0}) =
        λ name. find_collection name >>= λ found. if found then rest name else pure tt in
      guarded-Keeps (text_at req (codes "collection_name") >>= tail) (
        bind-Keeps (text_at req (codes "collection_name")) tail
          (text_at-Keeps req (codes "collection_name"))
          (λ name.
            bind-Keeps (find_collection name) (λ found. if found then rest name else pure tt)
              (find_collection-Keeps name)
              (λ found. if-Keeps found (rest name) (pure tt) (k name) (pure-Keeps tt))))
