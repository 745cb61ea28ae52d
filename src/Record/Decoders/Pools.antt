-- ===== src/Record/Decoders/Pools.antt =====
-- crates/midgard-record/src/events.rs: decoders of the events that change a pool.
use midgard_rs.Common.{
  Bool, false, not, ◌||◌, Option, none, some, List, [], ◌∷◌, Result, ok, err, map_err, ◌>>=◌,
  if◌then◌else◌,
}
use midgard_rs.Common.Int.{ℤ, pos, max_ℤ, ltb_ℤ}
use midgard_rs.Common.Word.{neg_i64}
use midgard_rs.Common.Text.{Text, codes, text_eq, parse_i64, to_ascii_lowercase}
use midgard_rs.Chain.Types.{Event, attr, attrs}
use midgard_rs.Record.Coin.{Coin, parse_coins, split_rune}
use midgard_rs.Record.Direction.{Direction, classify, as_i16, rune_to_asset}
use midgard_rs.Record.Attributes.{DecodeError, coin, required, optional, text, int, float, coin_of}
use midgard_rs.Record.Rows.{
  F64, Swap, Stake, Withdraw, PoolStatus, Fee, Gas, Rewards, Add, Errata, PoolBalanceChange, Slash,
  PendingLiquidity,
}

abbrev pub direction_or_default : Option Direction → ℤ
direction_or_default none = as_i16 rune_to_asset
direction_or_default (some d) = as_i16 d

unfoldable pub swap : Event → Result DecodeError Swap
unfolding text required int coin_of classify as_i16
swap e = do
  let k = codes "swap"
  from ← coin_of e k (codes "coin")
  to ← coin_of e k (codes "emit_asset")
  planned ← int e k (codes "streaming_swap_quantity")
  done ← int e k (codes "streaming_swap_count")
  let quantity = max_ℤ planned (pos 1)
  pool ← required e k (codes "pool")
  to_e8_min ← int e k (codes "swap_target")
  slip ← int e k (codes "swap_slip")
  liq_fee ← int e k (codes "liquidity_fee")
  liq_fee_in_rune ← int e k (codes "liquidity_fee_in_rune")
  ok (record {
    tx = text e (codes "id");
    chain = text e (codes "chain");
    from_addr = text e (codes "from");
    to_addr = text e (codes "to");
    from_asset = from.asset;
    from_e8 = from.amount_e8;
    to_asset = to.asset;
    to_e8 = to.amount_e8;
    memo = text e (codes "memo");
    pool = pool;
    to_e8_min = to_e8_min;
    swap_slip_bp = slip;
    liq_fee_e8 = liq_fee;
    liq_fee_in_rune_e8 = liq_fee_in_rune;
    direction = direction_or_default (classify from.asset to.asset);
    streaming = ltb_ℤ (pos 1) quantity;
    streaming_count = max_ℤ done (pos 1);
    streaming_quantity = quantity;
  })

abbrev pub units_key : Option Text → Text
units_key none = codes "stake_units"
units_key (some v) = codes "liquidity_provider_units"

unfoldable pub stake : Event → Result DecodeError Stake
unfolding required optional int attr
stake e = do
  let k = codes "add_liquidity"
  pool ← required e k (codes "pool")
  asset_e8 ← int e k (codes "asset_amount")
  units ← int e k (units_key (attr e (codes "liquidity_provider_units")))
  rune_e8 ← int e k (codes "rune_amount")
  ok (record {
    pool = pool;
    asset_tx = optional e (codes "asset_tx_id");
    asset_chain = optional e (codes "asset_chain");
    asset_addr = optional e (codes "asset_address");
    asset_e8 = asset_e8;
    stake_units = units;
    rune_tx = optional e (codes "rune_tx_id");
    rune_addr = optional e (codes "rune_address");
    rune_e8 = rune_e8;
    asset_in_rune_e8 = pos 0;
    memo = optional e (codes "memo");
  })

unfoldable pub withdraw : (Text → Option F64) → Event → Result DecodeError Withdraw
unfolding text required int float coin_of
withdraw parse_f64 e = do
  let k = codes "withdraw"
  c ← coin_of e k (codes "coin")
  emit_asset ← int e k (codes "emit_asset")
  emit_rune ← int e k (codes "emit_rune")
  pool ← required e k (codes "pool")
  units ← int e k (codes "liquidity_provider_units")
  basis_points ← int e k (codes "basis_points")
  asymmetry ← float parse_f64 e k (codes "asymmetry")
  protection ← int e k (codes "imp_loss_protection")
  ok (record {
    tx = text e (codes "id");
    chain = text e (codes "chain");
    from_addr = text e (codes "from");
    to_addr = text e (codes "to");
    asset = c.asset;
    asset_e8 = c.amount_e8;
    emit_asset_e8 = emit_asset;
    emit_rune_e8 = emit_rune;
    memo = text e (codes "memo");
    pool = pool;
    stake_units = units;
    basis_points = basis_points;
    asymmetry = asymmetry;
    imp_loss_protection_e8 = protection;
    emit_asset_in_rune_e8 = pos 0;
  })

unfoldable pub pool_status : Event → Result DecodeError PoolStatus
unfolding required to_ascii_lowercase
pool_status e = do
  let k = codes "pool"
  asset ← required e k (codes "pool")
  status ← required e k (codes "pool_status")
  ok (record { asset = asset; status = to_ascii_lowercase status })

unfoldable pub fee : Event → Result DecodeError Fee
unfolding text int coin_of
fee e = do
  let k = codes "fee"
  c ← coin_of e k (codes "coins")
  deduct ← int e k (codes "pool_deduct")
  ok (record {
    tx = text e (codes "tx_id");
    asset = c.asset;
    asset_e8 = c.amount_e8;
    pool_deduct = deduct;
  })

-- `coin_of(…).or_else(…)`: an amount beside the asset's name.
abbrev pub or_bare_asset : Event → Result DecodeError Coin → Result DecodeError Coin
or_bare_asset e (ok c) = ok c
or_bare_asset e (err x) = do
  n ← int e (codes "gas") (codes "asset_amt")
  ok (record { asset = text e (codes "asset"); amount_e8 = n })

unfoldable pub gas : Event → Result DecodeError Gas
unfolding text int coin_of
gas e = do
  let k = codes "gas"
  c ← or_bare_asset e (coin_of e k (codes "asset"))
  rune_e8 ← int e k (codes "rune_amt")
  count ← int e k (codes "transaction_count")
  ok (record { asset = c.asset; asset_e8 = c.amount_e8; rune_e8 = rune_e8; tx_count = count })

-- The loop of `rewards`: every readable attribute but two is a pool and its amount.
abbrev pub per_pool_of : List (Text × Text) → List (Text × ℤ)
per_pool_of [] = []
per_pool_of ((key, value) ∷ rest) =
    let later = per_pool_of rest in
    if text_eq key (codes "bond_reward") || text_eq key (codes "mode")
    then later
    else elim (parse_i64 value) [ none ↦ later | some n ↦ (key, n) ∷ later ]

unfoldable pub rewards : Event → Result DecodeError Rewards
unfolding int attrs text_eq parse_i64
rewards e = do
  bond_e8 ← int e (codes "rewards") (codes "bond_reward")
  ok (record { bond_e8 = bond_e8; per_pool = per_pool_of (attrs e) })

unfoldable pub donate : Event → Result DecodeError Add
unfolding text required parse_coins split_rune
donate e = do
  let k = codes "donate"
  coins ← map_err (coin k) (parse_coins (text e (codes "coin")))
  let (rune_e8, asset) = split_rune coins
  pool ← required e k (codes "pool")
  ok (record {
    tx = text e (codes "id");
    chain = text e (codes "chain");
    from_addr = text e (codes "from");
    to_addr = text e (codes "to");
    asset = elim asset [ none ↦ none | some c ↦ some c.asset ];
    asset_e8 = elim asset [ none ↦ pos 0 | some c ↦ c.amount_e8 ];
    memo = text e (codes "memo");
    rune_e8 = rune_e8;
    pool = pool;
  })

abbrev pub is_false : Option Text → Bool
is_false none = false
is_false (some s) = text_eq s (codes "false")

abbrev pub signed : Event → ℤ → Text → ℤ
signed e v add = if is_false (attr e add) then neg_i64 v else v

unfoldable pub errata : Event → Result DecodeError Errata
unfolding text int attr neg_i64 text_eq
errata e = do
  let k = codes "errata"
  rune ← int e k (codes "rune_amt")
  asset ← int e k (codes "asset_amt")
  ok (record {
    in_tx = text e (codes "in_tx_id");
    asset = text e (codes "asset");
    asset_e8 = signed e asset (codes "asset_add");
    rune_e8 = signed e rune (codes "rune_add");
  })

unfoldable pub pool_balance_change : Event → Result DecodeError PoolBalanceChange
unfolding text required int attr text_eq
pool_balance_change e = do
  let k = codes "pool_balance_change"
  asset ← required e k (codes "asset")
  rune_amt ← int e k (codes "rune_amt")
  asset_amt ← int e k (codes "asset_amt")
  ok (record {
    asset = asset;
    rune_amt = rune_amt;
    rune_add = not (is_false (attr e (codes "rune_add")));
    asset_amt = asset_amt;
    asset_add = not (is_false (attr e (codes "asset_add")));
    reason = text e (codes "reason");
  })

-- `filter(…).find_map(…).unwrap_or_default()` in `slash`.
abbrev pub slashed : List (Text × Text) → Text × ℤ
slashed [] = ([], pos 0)
slashed ((key, value) ∷ rest) =
    let later = slashed rest in
    if text_eq key (codes "pool") || text_eq key (codes "mode")
    then later
    else elim (parse_i64 value) [ none ↦ later | some n ↦ (key, n) ]

unfoldable pub slash : Event → Result DecodeError Slash
unfolding required attrs text_eq parse_i64
slash e = do
  pool ← required e (codes "slash") (codes "pool")
  let (asset, asset_e8) = slashed (attrs e)
  ok (record { pool = pool; asset = asset; asset_e8 = asset_e8 })

unfoldable pub pending_liquidity : Event → Result DecodeError PendingLiquidity
unfolding text required optional int
pending_liquidity e = do
  let k = codes "pending_liquidity"
  pool ← required e k (codes "pool")
  asset_e8 ← int e k (codes "asset_amount")
  rune_e8 ← int e k (codes "rune_amount")
  ok (record {
    pool = pool;
    asset_tx = optional e (codes "asset_tx_id");
    asset_chain = optional e (codes "asset_chain");
    asset_addr = optional e (codes "asset_address");
    asset_e8 = asset_e8;
    rune_tx = optional e (codes "rune_tx_id");
    rune_addr = optional e (codes "rune_address");
    rune_e8 = rune_e8;
    pending_type = text e (codes "type");
  })
