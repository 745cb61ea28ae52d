-- ===== src/Db/Tables.antt =====
-- crates/midgard-db/src/tables.rs: the tables that are rolled back.
use midgard_rs.Common.{List, [], ◌∷◌, ◌++◌}
use midgard_rs.Common.Text.{Text, codes}

abbrev pub event_tables : List Text
event_tables =
    codes "active_vault_events"
    ∷ codes "add_events"
    ∷ codes "bond_events"
    ∷ codes "errata_events"
    ∷ codes "fee_events"
    ∷ codes "gas_events"
    ∷ codes "inactive_vault_events"
    ∷ codes "mint_burn_events"
    ∷ codes "outbound_events"
    ∷ codes "pending_liquidity_events"
    ∷ codes "pool_balance_change_events"
    ∷ codes "pool_events"
    ∷ codes "refund_events"
    ∷ codes "rewards_event_entries"
    ∷ codes "rewards_events"
    ∷ codes "set_mimir_events"
    ∷ codes "slash_events"
    ∷ codes "stake_events"
    ∷ codes "swap_events"
    ∷ codes "switch_events"
    ∷ codes "transfer_events"
    ∷ codes "update_node_account_status_events"
    ∷ codes "withdraw_events"
    ∷ []

abbrev pub derived_tables : List Text
derived_tables = codes "block_pool_depths" ∷ codes "rune_price" ∷ []

unfoldable pub rollback_tables : List Text
rollback_tables = event_tables ++ derived_tables
