-- ===== src/Server/Challenges/Laws.antt =====
-- A challenge is not started twice: what stays true of its record while others come and go.
use acme_gateway.Prelude.{
  ℕ, zero, suc, ◌+◌, ◌≤◌, String, true, false, ◌≡◌, ◌≢◌, refl, sym, ap, ◌⊎◌, List, [], ◌∷◌, ◌++◌,
  Option, none, some, ◌==◌, eq_iff, eq_refl, arith, length, get_elem?, set, Bool-cases, inl, inr,
}
use acme_gateway.Config.{lookup}
use acme_gateway.Server.Challenges.{
  ChallengeProgress, ChallengeProc, challenge_proc_retention, begun, failed, is_stale, evict,
  evict_stale_challenge_proc, load_or_store, begin_challenge_proc, fail_at, fail, without, finish,
}

-- What else happens to the map: a challenge begins, a worker fails, a worker is done.
pub data Event : Type 0 where
  begin : String → ℕ → Event
  failure : ℕ → String → String → Event
  done : String → Event

unfoldable pub run_event : Event → ChallengeProc → ChallengeProc
unfolding begin_challenge_proc fail finish
run_event (begin id now) s = (begin_challenge_proc id now s).1
run_event (failure ref t m) s = fail ref t m s
run_event (done id) s = finish id s

unfoldable pub run_events : List Event → ChallengeProc → ChallengeProc
unfolding run_event
run_events [] s = s
run_events (e ∷ es) s = run_events es (run_event e s)

-- The event is not the end of the work on `id`, and is not after `last`.
unfoldable pub IsWithin : String → ℕ → Event → Type 0
IsWithin id last (begin j now) = now ≤ last
IsWithin id last (failure ref t m) = Unit
IsWithin id last (done j) = j ≢ id

unfoldable pub AreWithin : String → ℕ → List Event → Type 0
AreWithin id last [] = Unit
AreWithin id last (e ∷ es) = IsWithin id last e × AreWithin id last es

-- `id` has the record `ref`, made at `t`.
record IsHeld (id : String) (ref t : ℕ) (s : ChallengeProc) : Type 0 where
  listed : lookup id s.entries ≡ some ref
  held : ChallengeProgress
  stored : get_elem? s.records ref ≡ some held
  made : held.created_at ≡ t

get_elem?-append :
    {A : Type 0} (xs ys : List A) (i : ℕ) {a : A}
    → get_elem? xs i ≡ some a
    → get_elem? (xs ++ ys) i ≡ some a
get_elem?-append [] ys i h = absurd (cc)
get_elem?-append (x ∷ xs) ys zero h = h
get_elem?-append (x ∷ xs) ys (suc i) h = get_elem?-append xs ys i h

get_elem?-append_last :
    {A : Type 0} (xs : List A) (a : A) → get_elem? (xs ++ (a ∷ [])) (length xs) ≡ some a
get_elem?-append_last [] a = refl
get_elem?-append_last (x ∷ xs) a = get_elem?-append_last xs a

get_elem?-set :
    {A : Type 0} (xs : List A) (i j : ℕ) (v : A) {a : A}
    → get_elem? xs j ≡ some a
    → (get_elem? (set xs i v) j ≡ some a) ⊎ ((i ≡ j) × (get_elem? (set xs i v) j ≡ some v))
get_elem?-set [] i j v h = absurd (cc)
get_elem?-set (x ∷ xs) zero zero v h = inr (refl, refl)
get_elem?-set (x ∷ xs) zero (suc j) v h = inl h
get_elem?-set (x ∷ xs) (suc i) zero v h = inl h
get_elem?-set (x ∷ xs) (suc i) (suc j) v h = elim (get_elem?-set xs i j v h) [
  | inl e ↦ inl e
  | inr (p, e) ↦ inr (ap suc p, e)
]

lookup-evict :
    (now : ℕ) (records : List ChallengeProgress) (m : List (String × ℕ)) (id : String) (ref : ℕ)
    → is_stale now (get_elem? records ref) ≡ false
    → lookup id m ≡ some ref
    → lookup id (evict now records m) ≡ some ref
lookup-evict now records [] id ref fresh h = absurd (cc)
lookup-evict now records ((j, r) ∷ m) id ref fresh h = elim (Bool-cases (j == id)) [
  | inl e ↦ let same : r ≡ ref = ground arith in ground arith
  | inr e ↦ rest (lookup-evict now records m id ref fresh (ground arith)) e
]
  where
    rest :
        lookup id (evict now records m) ≡ some ref
        → (j == id) ≡ false
        → lookup id (evict now records ((j, r) ∷ m)) ≡ some ref
    rest k e = ground arith

lookup-without :
    (m : List (String × ℕ)) (j id : String) (ref : ℕ)
    → j ≢ id
    → lookup id m ≡ some ref
    → lookup id (without j m) ≡ some ref
lookup-without [] j id ref ne h = absurd (cc)
lookup-without ((k, r) ∷ m) j id ref ne h = elim (Bool-cases (k == id)) [
  | inl e ↦ ground (arith, eq_iff k id, eq_iff k j)
  | inr e ↦ let rest = lookup-without m j id ref ne (ground arith) in ground arith
]

module _ (id : String) (ref t : ℕ) where
  IsHeld-evict :
      (now : ℕ) (s : ChallengeProc)
      → now ≤ t + challenge_proc_retention
      → IsHeld id ref t s
      → IsHeld id ref t (evict_stale_challenge_proc now s)
  unfolding evict_stale_challenge_proc
  IsHeld-evict now s le h = record {
    listed =
        lookup-evict now s.records s.entries id ref (rw h.stored (ground (arith, h.made))) h.listed;
    held = h.held;
    stored = h.stored;
    made = h.made;
  }

  IsHeld-load_or_store :
      (j : String) (now : ℕ) (s : ChallengeProc) (o : Option ℕ)
      → lookup j s.entries ≡ o
      → IsHeld id ref t s
      → IsHeld id ref t (load_or_store j now s o).1
  IsHeld-load_or_store j now s (some r) e h = h
  IsHeld-load_or_store j now s none e h = record {
    listed = ground (arith, eq_iff j id, h.listed);
    held = h.held;
    stored = get_elem?-append s.records (begun now ∷ []) ref h.stored;
    made = h.made;
  }

  IsHeld-run_event :
      (e : Event) (s : ChallengeProc)
      → IsWithin id (t + challenge_proc_retention) e
      → IsHeld id ref t s
      → IsHeld id ref t (run_event e s)
  unfolding run_event begin_challenge_proc fail finish IsWithin
  IsHeld-run_event (begin j now) s w h =
      IsHeld-load_or_store j now (evict_stale_challenge_proc now s)
        (lookup j (evict_stale_challenge_proc now s).entries) refl (IsHeld-evict now s w h)
  IsHeld-run_event (failure r ty m) s w h = go (get_elem? s.records r) refl
    where
      go :
          (o : Option ChallengeProgress)
          → get_elem? s.records r ≡ o
          → IsHeld id ref t (record s { records = fail_at r ty m s.records o })
      go none e = record { listed = h.listed; held = h.held; stored = h.stored; made = h.made }
      go (some p) e = elim (get_elem?-set s.records r ref (failed ty m p) h.stored) [
        | inl k ↦ record { listed = h.listed; held = h.held; stored = k; made = h.made }
        | inr (same, k) ↦ record {
          listed = h.listed;
          held = failed ty m p;
          stored = k;
          made = ground (arith, h.made, h.stored);
        }
      ]
  IsHeld-run_event (done j) s w h = record {
    listed = lookup-without s.entries j id ref w h.listed;
    held = h.held;
    stored = h.stored;
    made = h.made;
  }

  IsHeld-run_events :
      (es : List Event) (s : ChallengeProc)
      → AreWithin id (t + challenge_proc_retention) es
      → IsHeld id ref t s
      → IsHeld id ref t (run_events es s)
  unfolding run_events AreWithin
  IsHeld-run_events [] s w h = h
  IsHeld-run_events (e ∷ es) s (w, ws) h =
      IsHeld-run_events es (run_event e s) ws (IsHeld-run_event e s w h)

  begin-held :
      (now : ℕ) (s : ChallengeProc)
      → now ≤ t + challenge_proc_retention
      → IsHeld id ref t s
      → (begin_challenge_proc id now s).0 ≡ (ref, false)
  unfolding begin_challenge_proc
  begin-held now s le h = rw ((IsHeld-evict now s le h).listed) refl

started-IsHeld :
    (id : String) (t ref : ℕ) (s : ChallengeProc) (o : Option ℕ)
    → (load_or_store id t s o).0 ≡ (ref, true)
    → IsHeld id ref t (load_or_store id t s o).1
started-IsHeld id t ref s (some r) h = absurd (cc)
started-IsHeld id t ref s none h = record {
  listed = ground (arith, eq_refl id);
  held = begun t;
  stored = rw (sym (ap (λ p. p.0) h)) (get_elem?-append_last s.records (begun t));
  made = refl;
}

-- A challenge whose processing has started at time `t` is not started again by a later answer up to
-- an hour after `t`, whatever begins and whatever fails in between, also the challenge itself, as
-- long as no later call is dated after that hour and the work on it has not ended by triggering the
-- upstream challenge: the answer gets the record that is there.
pub begin_challenge_proc-once :
    (id : String) (t now ref : ℕ) (s : ChallengeProc) (es : List Event)
    → (begin_challenge_proc id t s).0 ≡ (ref, true)
    → AreWithin id (t + challenge_proc_retention) es
    → now ≤ t + challenge_proc_retention
    → (begin_challenge_proc id now (run_events es (begin_challenge_proc id t s).1)).0 ≡ (ref, false)
begin_challenge_proc-once id t now ref s es h ws le =
    begin-held id ref t now (run_events es (begin_challenge_proc id t s).1) le (
      IsHeld-run_events id ref t es (begin_challenge_proc id t s).1 ws (
        unfold begin_challenge_proc in
        started-IsHeld id t ref (evict_stale_challenge_proc t s)
          (lookup id (evict_stale_challenge_proc t s).entries) h))
