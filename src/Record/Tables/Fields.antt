-- ===== src/Record/Tables/Fields.antt =====
-- What the schema makes of an event: the table of its variant, and the columns with the values that
-- stand in them.
use midgard_rs.Common.{List, [], ◌∷◌, ◌++◌, map}
use midgard_rs.Common.Int.{ℤ, pos}
use midgard_rs.Common.Text.{Text, codes}
use midgard_rs.Record.Rows as Rows
use midgard_rs.Record.Rows.{Recorded}
use midgard_rs.Record.Writer.{Pending}
use midgard_rs.Record.Values.{Value, text, optional, int, bool, float}

abbrev pub table_of : Recorded → Text
table_of (Rows.swap v) = codes "swap_events"
table_of (Rows.stake v) = codes "stake_events"
table_of (Rows.withdraw v) = codes "withdraw_events"
table_of (Rows.pool v) = codes "pool_events"
table_of (Rows.fee v) = codes "fee_events"
table_of (Rows.gas v) = codes "gas_events"
table_of (Rows.rewards v) = codes "rewards_events"
table_of (Rows.outbound v) = codes "outbound_events"
table_of (Rows.refund v) = codes "refund_events"
table_of (Rows.add v) = codes "add_events"
table_of (Rows.transfer v) = codes "transfer_events"
table_of (Rows.bond v) = codes "bond_events"
table_of (Rows.pending_liquidity v) = codes "pending_liquidity_events"
table_of (Rows.errata v) = codes "errata_events"
table_of (Rows.set_mimir v) = codes "set_mimir_events"
table_of (Rows.mint_burn v) = codes "mint_burn_events"
table_of (Rows.pool_balance_change v) = codes "pool_balance_change_events"
table_of (Rows.slash v) = codes "slash_events"
table_of (Rows.switch v) = codes "switch_events"
table_of (Rows.active_vault v) = codes "active_vault_events"
table_of (Rows.inactive_vault v) = codes "inactive_vault_events"
table_of (Rows.node_status v) = codes "update_node_account_status_events"

abbrev pub fields_of : Recorded → List (Text × Value)
fields_of (Rows.swap v) =
    (codes "tx", text v.tx)
    ∷ (codes "chain", text v.chain)
    ∷ (codes "from_addr", text v.from_addr)
    ∷ (codes "to_addr", text v.to_addr)
    ∷ (codes "from_asset", text v.from_asset)
    ∷ (codes "from_e8", int v.from_e8)
    ∷ (codes "to_asset", text v.to_asset)
    ∷ (codes "to_e8", int v.to_e8)
    ∷ (codes "memo", text v.memo)
    ∷ (codes "pool", text v.pool)
    ∷ (codes "to_e8_min", int v.to_e8_min)
    ∷ (codes "swap_slip_bp", int v.swap_slip_bp)
    ∷ (codes "liq_fee_e8", int v.liq_fee_e8)
    ∷ (codes "liq_fee_in_rune_e8", int v.liq_fee_in_rune_e8)
    ∷ (codes "_direction", int v.direction)
    ∷ (codes "_streaming", bool v.streaming)
    ∷ (codes "streaming_count", int v.streaming_count)
    ∷ (codes "streaming_quantity", int v.streaming_quantity)
    ∷ []
fields_of (Rows.stake v) =
    (codes "pool", text v.pool)
    ∷ (codes "asset_tx", optional v.asset_tx)
    ∷ (codes "asset_chain", optional v.asset_chain)
    ∷ (codes "asset_addr", optional v.asset_addr)
    ∷ (codes "asset_e8", int v.asset_e8)
    ∷ (codes "stake_units", int v.stake_units)
    ∷ (codes "rune_tx", optional v.rune_tx)
    ∷ (codes "rune_addr", optional v.rune_addr)
    ∷ (codes "rune_e8", int v.rune_e8)
    ∷ (codes "_asset_in_rune_e8", int v.asset_in_rune_e8)
    ∷ (codes "memo", optional v.memo)
    ∷ []
fields_of (Rows.withdraw v) =
    (codes "tx", text v.tx)
    ∷ (codes "chain", text v.chain)
    ∷ (codes "from_addr", text v.from_addr)
    ∷ (codes "to_addr", text v.to_addr)
    ∷ (codes "asset", text v.asset)
    ∷ (codes "asset_e8", int v.asset_e8)
    ∷ (codes "emit_asset_e8", int v.emit_asset_e8)
    ∷ (codes "emit_rune_e8", int v.emit_rune_e8)
    ∷ (codes "memo", text v.memo)
    ∷ (codes "pool", text v.pool)
    ∷ (codes "stake_units", int v.stake_units)
    ∷ (codes "basis_points", int v.basis_points)
    ∷ (codes "asymmetry", float v.asymmetry)
    ∷ (codes "imp_loss_protection_e8", int v.imp_loss_protection_e8)
    ∷ (codes "_emit_asset_in_rune_e8", int v.emit_asset_in_rune_e8)
    ∷ []
fields_of (Rows.pool v) = (codes "asset", text v.asset) ∷ (codes "status", text v.status) ∷ []
fields_of (Rows.fee v) =
    (codes "tx", text v.tx)
    ∷ (codes "asset", text v.asset)
    ∷ (codes "asset_e8", int v.asset_e8)
    ∷ (codes "pool_deduct", int v.pool_deduct)
    ∷ []
fields_of (Rows.gas v) =
    (codes "asset", text v.asset)
    ∷ (codes "asset_e8", int v.asset_e8)
    ∷ (codes "rune_e8", int v.rune_e8)
    ∷ (codes "tx_count", int v.tx_count)
    ∷ []
fields_of (Rows.rewards v) = (codes "bond_e8", int v.bond_e8) ∷ []
fields_of (Rows.outbound v) =
    (codes "tx", optional v.tx)
    ∷ (codes "chain", text v.chain)
    ∷ (codes "from_addr", text v.from_addr)
    ∷ (codes "to_addr", text v.to_addr)
    ∷ (codes "asset", text v.asset)
    ∷ (codes "asset_e8", int v.asset_e8)
    ∷ (codes "memo", text v.memo)
    ∷ (codes "in_tx", text v.in_tx)
    ∷ []
fields_of (Rows.refund v) =
    (codes "tx", text v.tx)
    ∷ (codes "chain", text v.chain)
    ∷ (codes "from_addr", text v.from_addr)
    ∷ (codes "to_addr", text v.to_addr)
    ∷ (codes "asset", text v.asset)
    ∷ (codes "asset_e8", int v.asset_e8)
    ∷ (codes "asset_2nd", optional v.asset_2nd)
    ∷ (codes "asset_2nd_e8", int v.asset_2nd_e8)
    ∷ (codes "memo", optional v.memo)
    ∷ (codes "code", int v.code)
    ∷ (codes "reason", text v.reason)
    ∷ []
fields_of (Rows.add v) =
    (codes "tx", text v.tx)
    ∷ (codes "chain", text v.chain)
    ∷ (codes "from_addr", text v.from_addr)
    ∷ (codes "to_addr", text v.to_addr)
    ∷ (codes "asset", optional v.asset)
    ∷ (codes "asset_e8", int v.asset_e8)
    ∷ (codes "memo", text v.memo)
    ∷ (codes "rune_e8", int v.rune_e8)
    ∷ (codes "pool", text v.pool)
    ∷ []
fields_of (Rows.transfer v) =
    (codes "from_addr", text v.from_addr)
    ∷ (codes "to_addr", text v.to_addr)
    ∷ (codes "asset", text v.asset)
    ∷ (codes "amount_e8", int v.amount_e8)
    ∷ []
fields_of (Rows.bond v) =
    (codes "tx", text v.tx)
    ∷ (codes "chain", optional v.chain)
    ∷ (codes "from_addr", optional v.from_addr)
    ∷ (codes "to_addr", optional v.to_addr)
    ∷ (codes "asset", optional v.asset)
    ∷ (codes "asset_e8", int v.asset_e8)
    ∷ (codes "memo", optional v.memo)
    ∷ (codes "bond_type", text v.bond_type)
    ∷ (codes "e8", int v.e8)
    ∷ []
fields_of (Rows.pending_liquidity v) =
    (codes "pool", text v.pool)
    ∷ (codes "asset_tx", optional v.asset_tx)
    ∷ (codes "asset_chain", optional v.asset_chain)
    ∷ (codes "asset_addr", optional v.asset_addr)
    ∷ (codes "asset_e8", int v.asset_e8)
    ∷ (codes "rune_tx", optional v.rune_tx)
    ∷ (codes "rune_addr", optional v.rune_addr)
    ∷ (codes "rune_e8", int v.rune_e8)
    ∷ (codes "pending_type", text v.pending_type)
    ∷ []
fields_of (Rows.errata v) =
    (codes "in_tx", text v.in_tx)
    ∷ (codes "asset", text v.asset)
    ∷ (codes "asset_e8", int v.asset_e8)
    ∷ (codes "rune_e8", int v.rune_e8)
    ∷ []
fields_of (Rows.set_mimir v) = (codes "key", text v.key) ∷ (codes "value", text v.value) ∷ []
fields_of (Rows.mint_burn v) =
    (codes "asset", text v.asset)
    ∷ (codes "asset_e8", int v.asset_e8)
    ∷ (codes "supply", text v.supply)
    ∷ (codes "reason", text v.reason)
    ∷ []
fields_of (Rows.pool_balance_change v) =
    (codes "asset", text v.asset)
    ∷ (codes "rune_amt", int v.rune_amt)
    ∷ (codes "rune_add", bool v.rune_add)
    ∷ (codes "asset_amt", int v.asset_amt)
    ∷ (codes "asset_add", bool v.asset_add)
    ∷ (codes "reason", text v.reason)
    ∷ []
fields_of (Rows.slash v) =
    (codes "pool", text v.pool)
    ∷ (codes "asset", text v.asset)
    ∷ (codes "asset_e8", int v.asset_e8)
    ∷ []
fields_of (Rows.switch v) =
    (codes "tx", optional v.tx)
    ∷ (codes "from_addr", text v.from_addr)
    ∷ (codes "to_addr", text v.to_addr)
    ∷ (codes "burn_asset", text v.burn_asset)
    ∷ (codes "mint_asset", text v.mint_asset)
    ∷ (codes "burn_e8", int v.burn_e8)
    ∷ (codes "mint_e8", int v.mint_e8)
    ∷ []
fields_of (Rows.active_vault v) = (codes "add_asgard_addr", text v.add_asgard_addr) ∷ []
fields_of (Rows.inactive_vault v) = (codes "add_asgard_addr", text v.add_asgard_addr) ∷ []
fields_of (Rows.node_status v) =
    (codes "node_addr", text v.node_addr)
    ∷ (codes "former", text v.former)
    ∷ (codes "current", text v.current)
    ∷ []

-- A stored row: its table, and its columns with their values.
abbrev pub Row : Type 0
Row = Text × List (Text × Value)

-- What ties a row to its event and its block.
abbrev pub identity : Pending → List (Text × Value)
identity p =
    (codes "event_id", int p.event_id) ∷ (codes "block_timestamp", int p.block_timestamp) ∷ []

-- The share of a pool in the rewards of a block.
abbrev pub share : Pending → Text × ℤ → Row
share p (pool, amount) = (
  codes "rewards_event_entries",
  (codes "pool", text pool)
      ∷ (codes "rune_e8", int amount)
      ∷ (codes "saver_e8", int (pos 0))
      ∷ identity p,
)

abbrev pub shares : Pending → Recorded → List Row
shares p (Rows.rewards r) = map (share p) r.per_pool
shares p r = []

-- The rows of an event: one in the table of its variant, and one for each pool that it rewards.
abbrev pub rows_of : Pending → Recorded → List Row
rows_of p r = (table_of r, fields_of r ++ identity p) ∷ shares p r

abbrev pub rows_of_all : List Pending → List Row
rows_of_all [] = []
rows_of_all (p ∷ ps) = rows_of p p.content ++ rows_of_all ps
