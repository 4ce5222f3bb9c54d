-- ===== src/Aggregation/Words.antt =====
-- The bytes of a verification key (`u32_to_u8` of utils/client/src/types.rs).
use mina_evm_l.Prelude.{ℕ, ◌+◌, ◌*◌, ◌^◌, ◌<◌, ◌≡◌, refl, ◌∙◌, ap, List, [], ◌∷◌, ◌++◌, arith, All}
use mina_evm_l.Request.{Bytes}
use mina_evm_l.Aggregation.{to_be_bytes, u32_to_u8, spelled}

-- The number that 32-bit words spell.
abbrev pub words : ℕ → List ℕ → ℕ
words high [] = high
words high (w ∷ ws) = words (high * 2 ^ 32 + w) ws

spelled-word :
    (high w : ℕ) (bytes : Bytes)
    → w < 2 ^ 32
    → spelled high (to_be_bytes w ++ bytes) ≡ spelled (high * 2 ^ 32 + w) bytes
unfolding spelled
spelled-word high w bytes lt = ap (λ (n : ℕ). spelled n bytes) (omega arith)

-- The bytes that `u32_to_u8` makes of 32-bit words spell the same number as the words.
pub spelled-u32_to_u8 :
    (high : ℕ) (input : List ℕ)
    → All (λ w. w < 2 ^ 32) input
    → spelled high (u32_to_u8 input) ≡ words high input
unfolding spelled u32_to_u8
spelled-u32_to_u8 high [] h = refl
spelled-u32_to_u8 high (w ∷ input) h =
    spelled-word high w (u32_to_u8 input) h.0 ∙ spelled-u32_to_u8 (high * 2 ^ 32 + w) input h.1
