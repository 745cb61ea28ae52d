-- ===== src/Record/Depth.antt =====
-- crates/midgard-record/src/depth.rs: the depth of every pool, and the pools an event touched.
-- The map from pools to depths is an association list with one entry for a pool.
pub mod Ledger
pub mod Sums
pub mod Steps
pub mod Balances
pub mod Changes
use midgard_rs.Common.{Bool, true, false, ◌||◌, List, [], ◌∷◌, ◌++◌, map, if◌then◌else◌, ◌==◌}
use midgard_rs.Common.Int.{ℤ, pos, eqb_ℤ}
use midgard_rs.Common.Word.{add_i64, sub_i64, neg_i64}
use midgard_rs.Common.Text.{Text, text_eq, one_of, replace_first}
use midgard_rs.Core.Asset as Asset
use midgard_rs.Core.Asset.{CoinType, coin_type, is_rune}
use midgard_rs.Record.Rows as Rows
use midgard_rs.Record.Rows.{Recorded, Swap}

pub record Depth : Type 0 where
  pub asset_e8 : ℤ
  pub rune_e8 : ℤ
  pub synth_e8 : ℤ
  pub units : ℤ

-- `Depth::default()`
abbrev pub no_depth : Depth
no_depth = record { asset_e8 = pos 0; rune_e8 = pos 0; synth_e8 = pos 0; units = pos 0 }

pub record DepthTracker : Type 0 where
  pub current : List (Text × Depth)
  pub dirty : List Text

abbrev pub lookup : List (Text × Depth) → Text → Depth
lookup [] pool = no_depth
lookup ((p, d) ∷ rest) pool = let later = lookup rest pool in if text_eq p pool then d else later

-- `insert`, and a write through `get_mut`.
abbrev pub insert : List (Text × Depth) → Text → Depth → List (Text × Depth)
insert [] pool v = (pool, v) ∷ []
insert ((p, d) ∷ rest) pool v =
    let later = insert rest pool v in if text_eq p pool then (p, v) ∷ rest else (p, d) ∷ later

abbrev pub new : DepthTracker
new = record { current = []; dirty = [] }

abbrev pub insert_all : List (Text × Depth) → List (Text × Depth) → List (Text × Depth)
insert_all m [] = m
insert_all m ((p, d) ∷ rest) = insert_all (insert m p d) rest

unfoldable pub load : List (Text × Depth) → DepthTracker → DepthTracker
unfolding text_eq
load depths t = record { current = insert_all [] depths; dirty = [] }

unfoldable pub get : DepthTracker → Text → Depth
unfolding text_eq
get t pool = lookup t.current pool

-- `touch`, with the write its caller makes through the reference it returns.
unfoldable pub touch : Text → (Depth → Depth) → DepthTracker → DepthTracker
unfolding text_eq one_of
touch pool write t = record {
  current = insert t.current pool (write (lookup t.current pool));
  dirty = if one_of pool t.dirty then t.dirty else t.dirty ++ pool ∷ [];
}

abbrev pub is_synth : CoinType → Bool
is_synth Asset.synth = true
is_synth c = false

unfoldable pub swap_write : Swap → Depth → Depth
swap_write s d =
    if is_synth (coin_type s.to_asset)
    then record {
      asset_e8 = d.asset_e8;
      rune_e8 = add_i64 d.rune_e8 s.from_e8;
      synth_e8 = add_i64 d.synth_e8 s.to_e8;
      units = d.units;
    }
    else if is_synth (coin_type s.from_asset)
    then record {
      asset_e8 = d.asset_e8;
      rune_e8 = sub_i64 d.rune_e8 s.to_e8;
      synth_e8 = sub_i64 d.synth_e8 s.from_e8;
      units = d.units;
    }
    else if is_rune s.from_asset
    then record {
      asset_e8 = sub_i64 d.asset_e8 s.to_e8;
      rune_e8 = add_i64 d.rune_e8 s.from_e8;
      synth_e8 = d.synth_e8;
      units = d.units;
    }
    else record {
      asset_e8 = add_i64 d.asset_e8 s.from_e8;
      rune_e8 = sub_i64 d.rune_e8 s.to_e8;
      synth_e8 = d.synth_e8;
      units = d.units;
    }

unfoldable pub apply_swap : Swap → DepthTracker → DepthTracker
unfolding touch
apply_swap s t = touch s.pool (swap_write s) t

abbrev pub add_both : ℤ → ℤ → Depth → Depth
add_both asset rune d = record {
  asset_e8 = add_i64 d.asset_e8 asset;
  rune_e8 = add_i64 d.rune_e8 rune;
  synth_e8 = d.synth_e8;
  units = d.units;
}

abbrev pub add_rune : ℤ → Depth → Depth
add_rune rune d = record {
  asset_e8 = d.asset_e8;
  rune_e8 = add_i64 d.rune_e8 rune;
  synth_e8 = d.synth_e8;
  units = d.units;
}

abbrev pub add_asset : ℤ → Depth → Depth
add_asset asset d = record {
  asset_e8 = add_i64 d.asset_e8 asset;
  rune_e8 = d.rune_e8;
  synth_e8 = d.synth_e8;
  units = d.units;
}

abbrev pub stake_write : Rows.Stake → Depth → Depth
stake_write s d = record {
  asset_e8 = add_i64 d.asset_e8 s.asset_e8;
  rune_e8 = add_i64 d.rune_e8 s.rune_e8;
  synth_e8 = d.synth_e8;
  units = add_i64 d.units s.stake_units;
}

abbrev pub withdraw_write : Rows.Withdraw → Depth → Depth
withdraw_write w d = record {
  asset_e8 = sub_i64 d.asset_e8 w.emit_asset_e8;
  rune_e8 = add_i64 (sub_i64 d.rune_e8 w.emit_rune_e8) w.imp_loss_protection_e8;
  synth_e8 = d.synth_e8;
  units = sub_i64 d.units w.stake_units;
}

abbrev pub signed : Bool → ℤ → ℤ
signed plus n = if plus then n else neg_i64 n

abbrev pub gas_write : Rows.Gas → Depth → Depth
gas_write g d = record {
  asset_e8 = sub_i64 d.asset_e8 g.asset_e8;
  rune_e8 = add_i64 d.rune_e8 g.rune_e8;
  synth_e8 = d.synth_e8;
  units = d.units;
}

abbrev pub deduct_write : ℤ → Depth → Depth
deduct_write n d = record {
  asset_e8 = d.asset_e8;
  rune_e8 = sub_i64 d.rune_e8 n;
  synth_e8 = d.synth_e8;
  units = d.units;
}

-- The loop over `per_pool`.
abbrev pub apply_rewards : List (Text × ℤ) → DepthTracker → DepthTracker
apply_rewards [] t = t
apply_rewards ((pool, n) ∷ rest) t = apply_rewards rest (touch pool (add_rune n) t)

unfoldable pub pool_of_asset : Text → Text
pool_of_asset asset =
    replace_first (λ c. c == b'/' || c == b'~') b'.' (Asset.to_string (Asset.parse asset))

unfoldable pub apply : Recorded → DepthTracker → DepthTracker
unfolding touch apply_swap
apply (Rows.swap s) t = apply_swap s t
apply (Rows.stake s) t = touch s.pool (stake_write s) t
apply (Rows.withdraw w) t = touch w.pool (withdraw_write w) t
apply (Rows.add a) t = touch a.pool (add_both a.asset_e8 a.rune_e8) t
apply (Rows.errata e) t = touch e.asset (add_both e.asset_e8 e.rune_e8) t
apply (Rows.pool_balance_change c) t =
    touch c.asset (add_both (signed c.asset_add c.asset_amt) (signed c.rune_add c.rune_amt)) t
apply (Rows.rewards r) t = apply_rewards r.per_pool t
apply (Rows.slash s) t =
    touch s.pool (if is_rune s.asset then add_rune s.asset_e8 else add_asset s.asset_e8) t
apply (Rows.fee f) t =
    if eqb_ℤ f.pool_deduct (pos 0)
    then t
    else touch (pool_of_asset f.asset) (deduct_write f.pool_deduct) t
apply (Rows.gas g) t = touch (pool_of_asset g.asset) (gas_write g) t
apply r t = t

abbrev pub apply_all : List Recorded → DepthTracker → DepthTracker
apply_all [] t = t
apply_all (r ∷ rs) t = apply_all rs (apply r t)

-- The changed pools with their depths, and the tracker left behind.
unfoldable pub take_changed : DepthTracker → List (Text × Depth) × DepthTracker
unfolding get
take_changed t = (map (λ p. (p, get t p)) t.dirty, record { current = t.current; dirty = [] })

unfoldable pub has_changes : DepthTracker → Bool
has_changes t = elim t.dirty [ [] ↦ false | p ∷ ps ↦ true ]
