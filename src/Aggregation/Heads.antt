-- ===== src/Aggregation/Heads.antt =====
-- The map of L1 heads of the aggregation program (programs/aggregation/src/main.rs).
use mina_evm_l.Prelude.{
  ◌≡◌, ◌↔◌, refl, ap, ◌∙◌, inl, inr, Bool, true, false, ◌&&◌, ◌||◌, List, [], ◌∷◌, arith, ◌==◌,
  Bool-cases, All,
}
use mina_evm_l.Request.{B256}
use mina_evm_l.Aggregation.{BootInfo, HeadsMap, insert_head, l1_heads_map, mark_found, all_found}

abbrev pub is_in : B256 → List B256 → Bool
is_in k [] = false
is_in k (h ∷ hs) = k == h || is_in k hs

abbrev pub marks : List B256 → HeadsMap → HeadsMap
marks [] heads = heads
marks (h ∷ hs) heads = marks hs (mark_found h heads)

-- Every key is found, or among the hashes.
abbrev pub all_or : List B256 → HeadsMap → Bool
all_or hs [] = true
all_or hs ((k, found) ∷ entries) = (found || is_in k hs) && all_or hs entries

all_or-nil : (heads : HeadsMap) → all_found heads ≡ all_or [] heads
unfolding all_found
all_or-nil [] = refl
all_or-nil ((k, found) ∷ entries) = ground (arith, all_or-nil entries)

all_or-mark_found :
    (h : B256) (hs : List B256) (heads : HeadsMap)
    → all_or hs (mark_found h heads) ≡ all_or (h ∷ hs) heads
unfolding mark_found
all_or-mark_found h hs [] = refl
all_or-mark_found h hs ((k, found) ∷ entries) = ground (arith, all_or-mark_found h hs entries)

pub all_found-marks :
    (hs : List B256) (heads : HeadsMap) → all_found (marks hs heads) ≡ all_or hs heads
all_found-marks [] heads = all_or-nil heads
all_found-marks (h ∷ hs) heads =
    all_found-marks hs (mark_found h heads) ∙ all_or-mark_found h hs heads

abbrev NoneFound : HeadsMap → Type 0
NoneFound [] = Unit
NoneFound ((k, found) ∷ entries) = (found ≡ false) × NoneFound entries

insert_head-NoneFound :
    (k : B256) (heads : HeadsMap) → NoneFound heads → NoneFound (insert_head k heads)
unfolding insert_head
insert_head-NoneFound k [] h = (refl, tt)
insert_head-NoneFound k ((l, found) ∷ entries) h =
    ground (arith, insert_head-NoneFound k entries h.1)

all_or-insert_head :
    (hs : List B256) (k : B256) (heads : HeadsMap)
    → NoneFound heads
    → all_or hs (insert_head k heads) ≡ (is_in k hs && all_or hs heads)
unfolding insert_head
all_or-insert_head hs k [] h = ground arith
all_or-insert_head hs k ((l, found) ∷ entries) h = elim (Bool-cases (l == k)) [
  | inl same ↦ let e : l ≡ k = ground arith in rw (same, e, h.0) (ground arith)
  | inr other ↦ rw other (ground (arith, all_or-insert_head hs k entries h.1))
]

abbrev pub all_in : List B256 → List BootInfo → Bool
all_in hs [] = true
all_in hs (b ∷ boot_infos) = is_in b.l1_head hs && all_in hs boot_infos

l1_heads_map-NoneFound : (boot_infos : List BootInfo) → NoneFound (l1_heads_map boot_infos)
unfolding l1_heads_map
l1_heads_map-NoneFound [] = tt
l1_heads_map-NoneFound (b ∷ boot_infos) =
    insert_head-NoneFound b.l1_head (l1_heads_map boot_infos) (l1_heads_map-NoneFound boot_infos)

pub all_or-l1_heads_map :
    (hs : List B256) (boot_infos : List BootInfo)
    → all_or hs (l1_heads_map boot_infos) ≡ all_in hs boot_infos
unfolding l1_heads_map
all_or-l1_heads_map hs [] = refl
all_or-l1_heads_map hs (b ∷ boot_infos) =
    all_or-insert_head hs b.l1_head (l1_heads_map boot_infos) (l1_heads_map-NoneFound boot_infos)
    ∙ ap (λ (c : Bool). is_in b.l1_head hs && c) (all_or-l1_heads_map hs boot_infos)

pub all_in-All :
    (hs : List B256) (boot_infos : List BootInfo)
    → (all_in hs boot_infos ≡ true) ↔ All (λ b. is_in b.l1_head hs ≡ true) boot_infos
all_in-All hs [] = (λ h. tt, λ h. refl)
all_in-All hs (b ∷ boot_infos) =
    let (there, back) = all_in-All hs boot_infos in
    (λ h. (ground arith, there (ground arith)), λ h. ground (arith, back h.1))
