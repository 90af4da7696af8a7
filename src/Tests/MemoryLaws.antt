-- ===== src/Tests/MemoryLaws.antt =====
-- The instance in memory meets the assumptions on RocksDB.
use anu_db.Base.{
  ℕ, suc, ◌<◌, ◌≡◌, ◌≢◌, refl, ◌∙◌, true, false, not, List, [], ◌∷◌, ◌++◌, Option, none, some,
  Bytes, lookup, reverse, reverse-append, append-nil, append_assoc, eqb, before, drop_while,
  take_while, arith, Bool-cases, inl, inr, All, All-map, Pairwise, ◌≤◌,
}
use anu_db.RocksDb.{fine, missing}
use anu_db.RocksDb.Table.{Entry, Sorted, put_entry, delete_entry, is_empty}
use anu_db.RocksDb.Table.Sortedness.{put_entry-Sorted, delete_entry-Sorted}
use anu_db.RocksDb.Contract.{IsLawful}
use anu_db.Tests.Memory.{
  World, Place, off, on, changed, first_place, last_place, step_next, step_prev, seek_from,
  seek_last_from, ahead_of, behind_of, is_on, entry_of, answer, memory, open_all,
}

-- A handle in use was given out, and its table is sorted.
pub record IsLive (w : World) (h : ℕ) : Type 0 where
  pub used : w.in_use h ≡ true
  pub given : h < w.next_handle
  pub ordered : Sorted (w.tables h)

pub ahead-seek_from :
    (p : Bytes) (left es : List Entry)
    → ahead_of (seek_from p left es) ≡ drop_while (λ e. before e.0 p) es
unfolding seek_from drop_while
ahead-seek_from p left [] = refl
ahead-seek_from p left ((k, v) ∷ es) = elim (Bool-cases (before k p)) [
  | inl lt ↦ rw lt (ahead-seek_from p ((k, v) ∷ left) es)
  | inr ge ↦ rw ge
]

pub behind-last_place : (left es : List Entry) → behind_of (last_place left es) ≡ left
behind-last_place [] es = refl
behind-last_place (e ∷ left) es = refl

pub ahead-first_place : (left es : List Entry) → ahead_of (first_place left es) ≡ es
ahead-first_place left [] = refl
ahead-first_place left (e ∷ es) = refl

pub behind-seek_last_from :
    (p : Bytes) (left es : List Entry)
    → behind_of (seek_last_from p left es)
      ≡ reverse (take_while (λ e. not (before p e.0)) es) ++ left
unfolding seek_last_from take_while
behind-seek_last_from p left [] = behind-last_place left []
behind-seek_last_from p left ((k, v) ∷ es) = elim (Bool-cases (before p k)) [
  | inl gt ↦ rw gt (behind-last_place left ((k, v) ∷ es))
  | inr le ↦ rw (le) (
      behind-seek_last_from p ((k, v) ∷ left) es
      ∙ rw (reverse-append ((k, v) ∷ []) (take_while (λ e. not (before p e.0)) es), append_assoc))
]

pub valid_ahead_of : (x : Place) → is_on x ≡ not (is_empty (ahead_of x))
valid_ahead_of off = refl
valid_ahead_of (on left e es) = refl

pub valid_behind_of : (x : Place) → is_on x ≡ not (is_empty (behind_of x))
valid_behind_of off = refl
valid_behind_of (on left e es) = refl

pub at_ahead_of :
    (x : Place) (k v : Bytes) (es : List Entry)
    → ahead_of x ≡ (k, v) ∷ es
    → ((entry_of x).0 ≡ k) × ((entry_of x).1 ≡ v) × (ahead_of (step_next x) ≡ es)
at_ahead_of off k v es h = absurd (ground arith)
at_ahead_of (on left e r) k v es h =
    (ground arith, ground arith, ahead-first_place (e ∷ left) r ∙ ground arith)

pub at_behind_of :
    (x : Place) (k v : Bytes) (es : List Entry)
    → behind_of x ≡ (k, v) ∷ es
    → ((entry_of x).0 ≡ k) × ((entry_of x).1 ≡ v) × (behind_of (step_prev x) ≡ es)
at_behind_of off k v es h = absurd (ground arith)
at_behind_of (on left e r) k v es h =
    (ground arith, ground arith, behind-last_place left (e ∷ r) ∙ ground arith)

pub changed_self : {A : Type 0} (f : ℕ → A) (h : ℕ) (a : A) → changed f h a h ≡ a
unfolding changed
changed_self f h a = ground arith

pub changed_other : {A : Type 0} (f : ℕ → A) (h g : ℕ) (a : A) → h ≢ g → changed f h a g ≡ f g
unfolding changed
changed_other f h g a n = ground arith

-- A table changed to a sorted one leaves every handle live.
pub IsLive-changed :
    (w : World) (h g : ℕ) (es : List Entry)
    → IsLive w g
    → (h ≡ g → Sorted es)
    → IsLive (record w { tables = changed w.tables h es }) g
IsLive-changed w h g es l s = record {
  used = l.used;
  given = l.given;
  ordered = elim (Bool-cases (eqb g h)) [
    | inl same ↦ unfold changed in rw same (s (ground arith))
    | inr differ ↦ unfold changed in rw differ l.ordered
  ];
}

pub answer_fine : (o : Option Bytes) → (answer o).0 ≡ fine → o ≡ some (answer o).1
unfolding answer
answer_fine none h = absurd (ground arith)
answer_fine (some v) h = refl

pub answer_missing : (o : Option Bytes) (m : Bytes) → (answer o).0 ≡ missing m → o ≡ none
unfolding answer
answer_missing none m h = refl
answer_missing (some v) m h = absurd (ground arith)

-- A table written at a handle.
pub IsLive-put :
    (w : World) (h g : ℕ) (k v : Bytes)
    → IsLive w g
    → IsLive (record w { tables = changed w.tables h (put_entry k v (w.tables h)) }) g
IsLive-put w h g k v l = IsLive-changed w h g _ l (λ e. put_entry-Sorted k v _ (rw e l.ordered))

pub IsLive-delete :
    (w : World) (h g : ℕ) (k : Bytes)
    → IsLive w g
    → IsLive (record w { tables = changed w.tables h (delete_entry k (w.tables h)) }) g
IsLive-delete w h g k l = IsLive-changed w h g _ l (λ e. delete_entry-Sorted k _ (rw e l.ordered))

abbrev pub grown : World → World
grown w = record {
  tables = changed w.tables w.next_handle [];
  in_use = changed w.in_use w.next_handle true;
  next_handle = suc w.next_handle;
}

pub IsLive-new : (w : World) → IsLive (grown w) w.next_handle
IsLive-new w = record {
  used = changed_self w.in_use w.next_handle true;
  given = omega arith;
  ordered = rw changed_self tt;
}

pub given_ne : (w : World) (g : ℕ) → IsLive w g → w.next_handle ≢ g
given_ne w g l e = absurd (omega (arith, l.given))

pub IsLive-grown :
    (w : World) (g : ℕ) → IsLive w g → IsLive (grown w) g × ((grown w).tables g ≡ w.tables g)
IsLive-grown w g l =
    let same = changed_other w.tables w.next_handle g [] (given_ne w g l) in
    (
      record {
        used = changed_other w.in_use w.next_handle g true (given_ne w g l) ∙ l.used;
        given = omega (arith, l.given);
        ordered = rw same l.ordered;
      },
      same,
    )

pub IsLive-dropped :
    (w : World) (h g : ℕ)
    → IsLive w g
    → h ≢ g
    → IsLive (record w { in_use = changed w.in_use h false }) g × (w.tables g ≡ w.tables g)
IsLive-dropped w h g l n = (
  record {
    used = changed_other w.in_use h g false n ∙ l.used;
    given = l.given;
    ordered = l.ordered;
  },
  refl,
)

IsLive-open_all : (ns : List Bytes) (w : World) (g : ℕ) → IsLive w g → IsLive (open_all ns w).1 g
unfolding open_all
IsLive-open_all [] w g l = l
IsLive-open_all (n ∷ ns) w g l = IsLive-open_all ns (grown w) g (IsLive-grown w g l).0

pub open_all-IsLive :
    (ns : List Bytes) (w : World) → All (IsLive (open_all ns w).1) (open_all ns w).0
unfolding open_all
open_all-IsLive [] w = tt
open_all-IsLive (n ∷ ns) w =
    (IsLive-open_all ns (grown w) w.next_handle (IsLive-new w), open_all-IsLive ns (grown w))

open_all_after :
    (ns : List Bytes) (w : World) (b : ℕ) → b ≤ w.next_handle → All (λ h. b ≤ h) (open_all ns w).0
unfolding open_all
open_all_after [] w b l = tt
open_all_after (n ∷ ns) w b l = (l, open_all_after ns (grown w) b (omega (arith, l)))

pub open_all-Pairwise : (ns : List Bytes) (w : World) → Pairwise (open_all ns w).0
unfolding open_all
open_all-Pairwise [] w = tt
open_all-Pairwise (n ∷ ns) w = (
  All-map (λ h. suc w.next_handle ≤ h) (λ h. w.next_handle ≢ h) (open_all ns (grown w)).0
      (λ h l q. absurd (omega (arith, l, q)))
      (open_all_after ns (grown w) (suc w.next_handle) (omega arith)),
  open_all-Pairwise ns (grown w),
)

pub fine-ne-missing : (m : Bytes) → fine ≢ missing m
fine-ne-missing m e = absurd (ground arith)

unfoldable pub memory-IsLawful : IsLawful memory
memory-IsLawful = record {
  Live = IsLive;
  contents = λ w h. w.tables h;
  sorted = λ w h l. l.ordered;
  put_self = λ w h k v l f. changed_self w.tables h _;
  put_other = λ w h g k v l m n. changed_other w.tables h g _ n;
  put_live = IsLive-put;
  delete_self = λ w h k l f. changed_self w.tables h _;
  delete_other = λ w h g k l m n. changed_other w.tables h g _ n;
  delete_live = IsLive-delete;
  delete_not_missing = λ w h k m l. fine-ne-missing m;
  get_fine = λ w h k l f. answer_fine (lookup k (w.tables h)) f;
  get_missing = λ w h k m l f. answer_missing (lookup k (w.tables h)) m f;
  create_live = λ w name f. IsLive-new w;
  create_empty = λ w name f. changed_self w.tables w.next_handle [];
  create_fresh = λ w name g l f. given_ne w g l;
  create_other = λ w name g l. IsLive-grown w g l;
  drop_other = λ w h g l m n. IsLive-dropped w h g m n;
  drop_failed = λ w h l f. absurd (f refl);
  open_live = λ w names f. open_all-IsLive names w;
  open_apart = λ w names f. open_all-Pairwise names w;
  snapshot = λ i. i.snapshot;
  ahead = λ i. ahead_of i.place;
  behind = λ i. behind_of i.place;
  snapshot-new_iterator = λ w h l. refl;
  valid_ahead = λ i. valid_ahead_of i.place;
  valid_behind = λ i. valid_behind_of i.place;
  at_ahead = λ i. at_ahead_of i.place;
  at_behind = λ i. at_behind_of i.place;
  ahead-seek_to_first = λ i. ahead-first_place [] i.snapshot;
  behind-seek_to_last = λ i. behind-last_place (reverse i.snapshot) [];
  ahead-seek = λ i p. ahead-seek_from p [] i.snapshot;
  behind-seek_for_prev = λ i p. behind-seek_last_from p [] i.snapshot ∙ append-nil _;
}
