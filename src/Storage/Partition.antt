-- ===== src/Storage/Partition.antt =====
-- sw/fw/src/systems/storage.rs: which partition of the flash the store lies in.
use powersupply.Base.{
  ℕ, ◌+◌, ◌%◌, ◌^◌, ◌≡◌, refl, Bool, true, false, List, [], ◌∷◌, ◌++◌, Option, none, some, Result,
  ok, err, if◌then◌else◌, Outcome, returns, panics, unwrap, unwrap_option, ◌>>=◌,
}

-- The fields of esp-partition-table's entry that the source reads; `is_nvs` is its test
-- `type_ == PartitionType::Data(DataPartitionType::Nvs)`.
pub record PartitionEntry : Type 0 where
  pub offset : ℕ
  pub size : ℕ
  pub is_nvs : Bool

abbrev pub Range : Type 0
Range = ℕ × ℕ

-- u32 addition, which wraps in the release profile.
unfoldable pub range : PartitionEntry → Range
range p = (p.offset, (p.offset + p.size) % 2 ^ 32)

-- The loop over the partition table: the last entry that fits is kept.
unfoldable pub scan :
    {E : Type 0}
    → Option PartitionEntry
    → List (Result PartitionEntry E)
    → Outcome (Option PartitionEntry)
scan found [] = returns found
scan found (entry ∷ rest) = do
  entry ← unwrap entry
  scan (if entry.is_nvs then some entry else found) rest

-- `.expect("No NVS partition found")`
unfoldable pub find_partition :
    {E : Type 0} → List (Result PartitionEntry E) → Outcome PartitionEntry
unfolding scan
find_partition table = do found ← scan none table; unwrap_option found

-- No entry of the list is of the type NVS.
abbrev pub NoNvs : List PartitionEntry → Type 0
NoNvs [] = Unit
NoNvs (p ∷ ps) = (p.is_nvs ≡ false) × NoNvs ps

module _ (E : Type 0) where
  -- The entries of a table that reads without an error.
  abbrev pub read : List PartitionEntry → List (Result PartitionEntry E)
  read [] = []
  read (p ∷ ps) = ok p ∷ read ps

  scan-NoNvs :
      (found : Option PartitionEntry) (ps : List PartitionEntry)
      → NoNvs ps
      → scan found (read ps) ≡ returns found
  unfolding scan
  scan-NoNvs found [] h = refl
  scan-NoNvs found (p ∷ ps) h = rw h.0 (scan-NoNvs found ps h.1)

  scan_past :
      (found : Option PartitionEntry) (before after : List PartitionEntry) (p : PartitionEntry)
      → p.is_nvs ≡ true
      → NoNvs after
      → scan found (read (before ++ p ∷ after)) ≡ returns (some p)
  unfolding scan
  scan_past found [] after p e h = simp e (scan-NoNvs (some p) after h)
  scan_past found (b ∷ before) after p e h =
      scan_past (if b.is_nvs then some b else found) before after p e h

  scan_error :
      (found : Option PartitionEntry) (before : List PartitionEntry) (x : E)
      (rest : List (Result PartitionEntry E))
      → scan found (read before ++ err x ∷ rest) ≡ panics
  unfolding scan
  scan_error found [] x rest = refl
  scan_error found (b ∷ before) x rest =
      scan_error (if b.is_nvs then some b else found) before x rest

  -- The store lies in the last NVS partition of the table. Without one, and when an entry of the
  -- table cannot be read, wherever it stands, the boot panics.
  pub find_partition_lem :
      (before after : List PartitionEntry) (p : PartitionEntry) (x : E)
      (rest : List (Result PartitionEntry E))
      → p.is_nvs ≡ true
      → NoNvs after
      → (find_partition (read (before ++ p ∷ after)) ≡ returns p)
        × (find_partition (read after) ≡ panics)
        × (find_partition (read before ++ err x ∷ rest) ≡ panics)
  unfolding find_partition
  find_partition_lem before after p x rest e h = (
    rw (scan_past none before after p e h) refl,
    rw (scan-NoNvs none after h) refl,
    rw (scan_error none before x rest) refl,
  )
