-- ===== src/Crc/Tables.antt =====
-- What the tables hold, and what a register does with the bytes of a word.
use my_git_hub.Common.{
  ℕ, ◌<◌, ◌≡◌, refl, ap, ◌∙◌, ◌==◌, ==_iff, Bool, true, List, holds_up_to, holds_up_to_lem,
}
use my_git_hub.Crc.Bitwise.{bit_step, byte_step}
use my_git_hub.Crc.FarTables.{
  sctp_crc_tableil8_o88, sctp_crc_tableil8_o80, sctp_crc_tableil8_o72, sctp_crc_tableil8_o64,
}
use my_git_hub.Crc.NearTables.{
  sctp_crc_tableil8_o56, sctp_crc_tableil8_o48, sctp_crc_tableil8_o40, sctp_crc_tableil8_o32,
}
use my_git_hub.Crc.ByteTables.{crc32_table_iscsi_base, sctp_crc_c}
use my_git_hub.Crc.Defs.{at}

-- Each entry of `table` is one byte further than that of `from`.
abbrev follows : List ℕ → (ℕ → ℕ) → Bool
follows table from = holds_up_to (λ i. at table i == byte_step (from i)) 256

follows_lem :
    (table : List ℕ) (from : ℕ → ℕ) (i : ℕ)
    → follows table from ≡ true
    → i < 256
    → at table i ≡ byte_step (from i)
follows_lem table from i f h =
    (==_iff (at table i) (byte_step (from i))).0 (holds_up_to_lem _ 256 i h f)

o32_table : follows sctp_crc_tableil8_o32 (λ i. i) ≡ true
unfolding holds_up_to byte_step bit_step sctp_crc_tableil8_o32
o32_table = refl

o40_table : follows sctp_crc_tableil8_o40 (at sctp_crc_tableil8_o32) ≡ true
unfolding holds_up_to byte_step bit_step sctp_crc_tableil8_o32 sctp_crc_tableil8_o40
o40_table = refl

o48_table : follows sctp_crc_tableil8_o48 (at sctp_crc_tableil8_o40) ≡ true
unfolding holds_up_to byte_step bit_step sctp_crc_tableil8_o48 sctp_crc_tableil8_o40
o48_table = refl

o56_table : follows sctp_crc_tableil8_o56 (at sctp_crc_tableil8_o48) ≡ true
unfolding holds_up_to byte_step bit_step sctp_crc_tableil8_o48 sctp_crc_tableil8_o56
o56_table = refl

o64_table : follows sctp_crc_tableil8_o64 (at sctp_crc_tableil8_o56) ≡ true
unfolding holds_up_to byte_step bit_step sctp_crc_tableil8_o64 sctp_crc_tableil8_o56
o64_table = refl

o72_table : follows sctp_crc_tableil8_o72 (at sctp_crc_tableil8_o64) ≡ true
unfolding holds_up_to byte_step bit_step sctp_crc_tableil8_o64 sctp_crc_tableil8_o72
o72_table = refl

o80_table : follows sctp_crc_tableil8_o80 (at sctp_crc_tableil8_o72) ≡ true
unfolding holds_up_to byte_step bit_step sctp_crc_tableil8_o80 sctp_crc_tableil8_o72
o80_table = refl

o88_table : follows sctp_crc_tableil8_o88 (at sctp_crc_tableil8_o80) ≡ true
unfolding holds_up_to byte_step bit_step sctp_crc_tableil8_o80 sctp_crc_tableil8_o88
o88_table = refl

base_table : follows crc32_table_iscsi_base (λ i. i) ≡ true
unfolding holds_up_to byte_step bit_step crc32_table_iscsi_base
base_table = refl

single_table : follows sctp_crc_c (λ i. i) ≡ true
unfolding holds_up_to byte_step bit_step sctp_crc_c
single_table = refl

module _ (i : ℕ) (h : i < 256) where
  pub at-o32 : at sctp_crc_tableil8_o32 i ≡ byte_step i
  at-o32 = follows_lem _ (λ i. i) i o32_table h

  pub at-o40 : at sctp_crc_tableil8_o40 i ≡ byte_step (byte_step i)
  at-o40 = follows_lem _ _ i o40_table h ∙ ap byte_step at-o32

  pub at-o48 : at sctp_crc_tableil8_o48 i ≡ byte_step (byte_step (byte_step i))
  at-o48 = follows_lem _ _ i o48_table h ∙ ap byte_step at-o40

  pub at-o56 : at sctp_crc_tableil8_o56 i ≡ byte_step (byte_step (byte_step (byte_step i)))
  at-o56 = follows_lem _ _ i o56_table h ∙ ap byte_step at-o48

  pub at-base : at crc32_table_iscsi_base i ≡ byte_step i
  at-base = follows_lem _ (λ i. i) i base_table h

  pub at-single : at sctp_crc_c i ≡ byte_step i
  at-single = follows_lem _ (λ i. i) i single_table h

-- A word goes through the register: four bytes.
abbrev pub word_step : ℕ → ℕ
word_step c = byte_step (byte_step (byte_step (byte_step c)))

module _ (i : ℕ) (h : i < 256) where
  pub at-o64 : at sctp_crc_tableil8_o64 i ≡ word_step (byte_step i)
  at-o64 = follows_lem _ _ i o64_table h ∙ ap byte_step (at-o56 i h)

  pub at-o72 : at sctp_crc_tableil8_o72 i ≡ word_step (byte_step (byte_step i))
  at-o72 = follows_lem _ _ i o72_table h ∙ ap byte_step at-o64

  pub at-o80 : at sctp_crc_tableil8_o80 i ≡ word_step (byte_step (byte_step (byte_step i)))
  at-o80 = follows_lem _ _ i o80_table h ∙ ap byte_step at-o72

  pub at-o88 : at sctp_crc_tableil8_o88 i ≡ word_step (word_step i)
  at-o88 = follows_lem _ _ i o88_table h ∙ ap byte_step at-o80
