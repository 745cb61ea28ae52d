-- ===== src/Chain/ThorNode.antt =====
-- crates/midgard-chain/src/thornode.rs: what a node says of its pools and nodes. HTTP is foreign.
use midgard_rs.Common.{Bool, Option, none, some}
use midgard_rs.Common.Int.{ℤ, pos}
use midgard_rs.Common.Text.{Text, codes, text_eq, parse_i64, to_ascii_lowercase}

-- An amount that is no number counts as 0.
unfoldable pub e8 : Text → ℤ
e8 s = elim (parse_i64 s) [ none ↦ pos 0 | some n ↦ n ]

pub record Node : Type 0 where
  pub node_address : Text
  pub status : Text
  pub total_bond : Text
  pub version : Text

abbrev pub bond_e8 : Node → ℤ
bond_e8 n = e8 n.total_bond

-- `eq_ignore_ascii_case`
abbrev pub is_active : Node → Bool
is_active n = text_eq (to_ascii_lowercase n.status) (codes "active")

pub record Pool : Type 0 where
  pub asset : Text
  pub status : Text
  pub balance_asset : Text
  pub balance_rune : Text
  pub pool_units : Text
  pub lp_units : Text
  pub synth_units : Text
  pub synth_supply : Text
  pub savers_depth : Text
  pub savers_units : Text
  pub decimals : Option ℤ

abbrev pub asset_e8 : Pool → ℤ
asset_e8 p = e8 p.balance_asset

abbrev pub rune_e8 : Pool → ℤ
rune_e8 p = e8 p.balance_rune

abbrev pub units : Pool → ℤ
units p = e8 p.pool_units

abbrev pub synth_e8 : Pool → ℤ
synth_e8 p = e8 p.synth_supply
