-- ===== src/Store/Log/Chain.antt =====
-- src/native_store.rs, src/native_hash.rs: the hash chain fixes the log behind its last entry.
use casegraphen.Prelude.{
  ◌+◌, String, Option, none, some, List, [], ◌∷◌, ◌≡◌, refl, Result, ok, err, ◌>>=◌, length, All,
  arith, ◌∙◌, eq_iff,
}
use casegraphen.Host.{Host}
use casegraphen.Model.{MorphismLogEntry}
use casegraphen.Store.Log.{
  last, LogState, initial, advance, check_entry, check_entries, validate_log_entries,
  require_previous_entry_hash, hashed, compared,
}

module _ (h : Host) (entry_hash : MorphismLogEntry h → Result String String) where
  -- Entries with the same hash are the same.
  abbrev pub HashTells : MorphismLogEntry h → MorphismLogEntry h → Type 0
  HashTells a b = (hash : String) → entry_hash a ≡ ok hash → entry_hash b ≡ ok hash → a ≡ b

  -- No entry of one log collides with an entry of the other.
  abbrev pub NoCollisions : List (MorphismLogEntry h) → List (MorphismLogEntry h) → Type 0
  NoCollisions xs ys = All (λ x. All (HashTells x) ys) xs

  without_first :
      (y : MorphismLogEntry h) (xs ys : List (MorphismLogEntry h))
      → NoCollisions xs (y ∷ ys)
      → NoCollisions xs ys
  without_first y [] ys n = tt
  without_first y (x ∷ xs) ys n = (n.0.1, without_first y xs ys n.1)

  named :
      (x y : MorphismLogEntry h) (r : Result String String) (o : Option String)
      → (hashed h entry_hash r >>= λ hash. compared h entry_hash y x hash o) ≡ ok tt
      → (hash : String) × (r ≡ ok hash) × (o ≡ some hash)
  named x y (err _) o e = cc
  named x y (ok hash) none e = cc
  named x y (ok hash) (some actual) e = (hash, refl, ground (arith, eq_iff actual hash))

  -- An entry names the hash of the one before it.
  linked :
      (expected : Option h.Ident) (s : LogState h entry_hash) (x y : MorphismLogEntry h)
      (log : List (MorphismLogEntry h))
      → check_entries h entry_hash expected s (x ∷ y ∷ log) ≡ ok tt
      → (hash : String) × (entry_hash x ≡ ok hash) × (y.previous_entry_hash ≡ some hash)
  unfolding check_entries check_entry require_previous_entry_hash
  linked expected s x y log v = named x y (entry_hash x) y.previous_entry_hash (ground arith)

  tail_checked :
      (expected : Option h.Ident) (s : LogState h entry_hash) (x : MorphismLogEntry h)
      (log : List (MorphismLogEntry h))
      → check_entries h entry_hash expected s (x ∷ log) ≡ ok tt
      → check_entries h entry_hash expected (advance h entry_hash s x) log ≡ ok tt
  unfolding check_entries
  tail_checked expected s x log v = ground arith

  -- The last entry carries the length of the log.
  last-sequence :
      (expected : Option h.Ident) (s : LogState h entry_hash) (log : List (MorphismLogEntry h))
      {latest : MorphismLogEntry h}
      → check_entries h entry_hash expected s log ≡ ok tt
      → last log ≡ some latest
      → latest.sequence ≡ s.index + length log
  unfolding check_entries check_entry
  last-sequence expected s [] v l = cc
  last-sequence expected s (x ∷ []) v l = ground arith
  last-sequence expected s (x ∷ y ∷ log) v l =
      let tail =
        last-sequence expected (advance h entry_hash s x) (y ∷ log)
          (tail_checked expected s x (y ∷ log) v) l in
      omega (arith, tail)

  chain :
      (expected : Option h.Ident) (s r : LogState h entry_hash) (xs ys : List (MorphismLogEntry h))
      {latest : MorphismLogEntry h}
      → NoCollisions xs ys
      → check_entries h entry_hash expected s xs ≡ ok tt
      → check_entries h entry_hash expected r ys ≡ ok tt
      → length xs ≡ length ys
      → last xs ≡ some latest
      → last ys ≡ some latest
      → xs ≡ ys
  chain expected s r [] [] n v w k l m = refl
  chain expected s r [] (y ∷ ys) n v w k l m = cc
  chain expected s r (x ∷ xs) [] n v w k l m = cc
  chain expected s r (x ∷ []) (y ∷ []) n v w k l m = cc
  chain expected s r (x ∷ []) (y ∷ y' ∷ ys) n v w k l m = ground arith
  chain expected s r (x ∷ x' ∷ xs) (y ∷ []) n v w k l m = ground arith
  chain expected s r (x ∷ x' ∷ xs) (y ∷ y' ∷ ys) n v w k l m =
      let rest : x' ∷ xs ≡ y' ∷ ys =
        chain expected (advance h entry_hash s x) (advance h entry_hash r y) (x' ∷ xs) (y' ∷ ys)
          (without_first y (x' ∷ xs) (y' ∷ ys) n.1) (tail_checked expected s x (x' ∷ xs) v)
          (tail_checked expected r y (y' ∷ ys) w) (omega (arith, k)) l m in
      let (hash, hx, px) = linked expected s x x' xs v in
      let (hash', hy, py) = linked expected r y y' ys w in
      let first : x ≡ y = n.0.0 hash hx (hy ∙ ground arith) in λ i. first i ∷ rest i

  -- Two logs that the loader accepts and that end in the same entry are the same log, where no entry
  -- of one collides with an entry of the other: what the last entry says fixes the whole history.
  pub validate_log_entries-chain :
      (expected : Option h.Ident) (xs ys : List (MorphismLogEntry h)) (latest : MorphismLogEntry h)
      → NoCollisions xs ys
      → validate_log_entries h entry_hash expected xs ≡ ok tt
      → validate_log_entries h entry_hash expected ys ≡ ok tt
      → last xs ≡ some latest
      → last ys ≡ some latest
      → xs ≡ ys
  unfolding validate_log_entries
  validate_log_entries-chain expected [] ys latest n v w l m = cc
  validate_log_entries-chain expected (x ∷ xs) [] latest n v w l m = cc
  validate_log_entries-chain expected (x ∷ xs) (y ∷ ys) latest n v w l m =
      chain expected (initial h entry_hash) (initial h entry_hash) (x ∷ xs) (y ∷ ys) n v w
        (omega (
          arith,
          last-sequence expected (initial h entry_hash) (x ∷ xs) v l,
          last-sequence expected (initial h entry_hash) (y ∷ ys) w m,
        ))
        l m
