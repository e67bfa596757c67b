-- ===== src/Server/Challenges.antt =====
-- internal/server/handlers.go: the records of challenges that are processed in the background. The
-- Go map holds pointers, which a worker keeps after its entry is evicted: the records are a list
-- here, and a pointer is a place in it. Times are nanoseconds.
pub mod Laws
pub mod Retention
use acme_gateway.Prelude.{
  ℕ, ◌+◌, ◌-◌, ◌*◌, String, Bool, true, false, not, List, [], ◌∷◌, ◌++◌, Option, none, some, ◌==◌,
  ltb, if◌then◌else◌, length, get_elem?, set,
}
use acme_gateway.Store.Db.{second}
use acme_gateway.Config.{lookup}

-- challengeProgress; `begun` when it is made
pub record ChallengeProgress : Type 0 where
  pub created_at : ℕ
  pub status : String
  pub err_type : String
  pub err_msg : String

-- The challengeProc map, and all records ever made.
pub record ChallengeProc : Type 0 where
  pub entries : List (String × ℕ)
  pub records : List ChallengeProgress

abbrev pub challenge_proc_retention : ℕ
challenge_proc_retention = 3600 * second

abbrev pub begun : ℕ → ChallengeProgress
begun now = record { created_at = now; status = "processing"; err_type = ""; err_msg = "" }

abbrev pub failed : String → String → ChallengeProgress → ChallengeProgress
failed err_type err_msg p = record p { status = "invalid"; err_type = err_type; err_msg = err_msg }

abbrev pub is_stale : ℕ → Option ChallengeProgress → Bool
is_stale now none = false
is_stale now (some p) = ltb challenge_proc_retention (now - p.created_at)

abbrev pub evict : ℕ → List ChallengeProgress → List (String × ℕ) → List (String × ℕ)
evict now records [] = []
evict now records ((id, ref) ∷ m) =
    if is_stale now (get_elem? records ref)
    then evict now records m
    else (id, ref) ∷ evict now records m

unfoldable pub evict_stale_challenge_proc : ℕ → ChallengeProc → ChallengeProc
evict_stale_challenge_proc now s = record s { entries = evict now s.records s.entries }

-- LoadOrStore, with the record it stores
abbrev pub load_or_store : String → ℕ → ChallengeProc → Option ℕ → (ℕ × Bool) × ChallengeProc
load_or_store id now s (some ref) = ((ref, false), s)
load_or_store id now s none = (
  (length s.records, true),
  record { entries = (id, length s.records) ∷ s.entries; records = s.records ++ (begun now ∷ []) },
)

-- The record, and whether the caller should start the work.
unfoldable pub begin_challenge_proc : String → ℕ → ChallengeProc → (ℕ × Bool) × ChallengeProc
unfolding evict_stale_challenge_proc
begin_challenge_proc id now s =
    let s' = evict_stale_challenge_proc now s in load_or_store id now s' (lookup id s'.entries)

abbrev pub fail_at :
    ℕ → String → String → List ChallengeProgress → Option ChallengeProgress → List ChallengeProgress
fail_at ref err_type err_msg records none = records
fail_at ref err_type err_msg records (some p) = set records ref (failed err_type err_msg p)

-- fail, of the record at a place
unfoldable pub fail : ℕ → String → String → ChallengeProc → ChallengeProc
fail ref err_type err_msg s = record s {
  records = fail_at ref err_type err_msg s.records (get_elem? s.records ref);
}

abbrev pub without : String → List (String × ℕ) → List (String × ℕ)
without id [] = []
without id ((j, ref) ∷ m) = if j == id then without id m else (j, ref) ∷ without id m

-- What a worker does last, when it has triggered the upstream challenge
unfoldable pub finish : String → ChallengeProc → ChallengeProc
finish id s = record s { entries = without id s.entries }

-- snapshot: the status, the error's type and its text
unfoldable pub snapshot : ℕ → ChallengeProc → Option (String × String × String)
snapshot ref s = elim (get_elem? s.records ref) [
  | none ↦ none
  | some p ↦ some (p.status, p.err_type, p.err_msg)
]
