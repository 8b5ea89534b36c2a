-- ===== src/Prelude/Words.antt =====
-- usize and u64 arithmetic of a release build: it wraps at 2 ^ 64.
use Prim.Native.Nat.{ℕ, ◌+◌, ◌-◌, ◌*◌, ◌%◌, ◌^◌, ◌≤◌, ◌<◌}
use mathlib.Core.Path.{◌≡◌}
use native.Mathlib.Omega.{arith}

abbrev pub word_mod : ℕ
word_mod = 2 ^ 64

pub add_word : ℕ → ℕ → ℕ
add_word a b = (a + b) % word_mod

pub sub_word : ℕ → ℕ → ℕ
sub_word a b = (a + word_mod - b) % word_mod

pub mul_word : ℕ → ℕ → ℕ
mul_word a b = (a * b) % word_mod

pub add_word-exact : (a b : ℕ) → a + b < word_mod → add_word a b ≡ a + b
unfolding add_word
add_word-exact a b h = omega arith

-- The last value of usize wraps to 0.
pub add_word-last : (a : ℕ) → a < word_mod → word_mod ≤ a + 1 → add_word a 1 ≡ 0
unfolding add_word
add_word-last a h k = omega arith

pub sub_word-exact : (a b : ℕ) → b ≤ a → a < word_mod → sub_word a b ≡ a - b
unfolding sub_word
sub_word-exact a b h k = omega arith
