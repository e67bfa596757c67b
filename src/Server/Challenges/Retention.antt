-- ===== src/Server/Challenges/Retention.antt =====
-- The map of challenge records does not grow without bound: what an eviction leaves is recent.
use acme_gateway.Prelude.{
  ℕ, zero, suc, ◌+◌, ◌≤◌, String, false, ◌≡◌, List, [], ◌∷◌, ◌++◌, Option, none, some, arith,
  length, get_elem?, All, Bool-cases, inl, inr,
}
use acme_gateway.Prelude.Tables.{All-imp}
use acme_gateway.Config.{lookup}
use acme_gateway.Server.Challenges.{
  ChallengeProgress, ChallengeProc, challenge_proc_retention, begun, is_stale, evict,
  evict_stale_challenge_proc, load_or_store, begin_challenge_proc,
}

-- The record, if there is one, was made at most an hour before.
abbrev pub IsYoung : ℕ → Option ChallengeProgress → Type 0
IsYoung now none = Unit
IsYoung now (some p) = now ≤ p.created_at + challenge_proc_retention

abbrev pub IsRecent : ℕ → List ChallengeProgress → String × ℕ → Type 0
IsRecent now records (id, ref) = IsYoung now (get_elem? records ref)

stale-IsYoung : (now : ℕ) (o : Option ChallengeProgress) → is_stale now o ≡ false → IsYoung now o
stale-IsYoung now none h = tt
stale-IsYoung now (some p) h = ground arith

evict-IsRecent :
    (now : ℕ) (records : List ChallengeProgress) (m : List (String × ℕ))
    → All (IsRecent now records) (evict now records m)
evict-IsRecent now records [] = tt
evict-IsRecent now records ((id, ref) ∷ m) =
    elim (Bool-cases (is_stale now (get_elem? records ref))) [
      | inl e ↦ rw e (evict-IsRecent now records m)
      | inr e ↦ rw e (stale-IsYoung now (get_elem? records ref) e, evict-IsRecent now records m)
    ]

IsYoung-append :
    (now : ℕ) (records : List ChallengeProgress) (i : ℕ)
    → IsYoung now (get_elem? records i)
    → IsYoung now (get_elem? (records ++ (begun now ∷ [])) i)
IsYoung-append now [] zero h = omega arith
IsYoung-append now [] (suc i) h = tt
IsYoung-append now (x ∷ records) zero h = h
IsYoung-append now (x ∷ records) (suc i) h = IsYoung-append now records i h

IsYoung-last :
    (now : ℕ) (records : List ChallengeProgress)
    → IsYoung now (get_elem? (records ++ (begun now ∷ [])) (length records))
IsYoung-last now [] = omega arith
IsYoung-last now (x ∷ records) = IsYoung-last now records

load_or_store-IsRecent :
    (id : String) (now : ℕ) (s : ChallengeProc) (o : Option ℕ)
    → All (IsRecent now s.records) s.entries
    → All (IsRecent now (load_or_store id now s o).1.records) (load_or_store id now s o).1.entries
load_or_store-IsRecent id now s (some ref) h = h
load_or_store-IsRecent id now s none h =
    (IsYoung-last now s.records, All-imp (λ e k. IsYoung-append now s.records e.1 k) s.entries h)

-- Whenever a challenge begins, all records that are in the map then were made in the hour before,
-- whatever was in it.
pub begin_challenge_proc-IsRecent :
    (id : String) (now : ℕ) (s : ChallengeProc)
    → All
        (IsRecent now (begin_challenge_proc id now s).1.records)
        (begin_challenge_proc id now s).1.entries
unfolding begin_challenge_proc evict_stale_challenge_proc
begin_challenge_proc-IsRecent id now s =
    load_or_store-IsRecent id now (evict_stale_challenge_proc now s)
      (lookup id (evict_stale_challenge_proc now s).entries)
      (evict-IsRecent now s.records s.entries)
