-- ===== src/Record/Decode/Kinds.antt =====
-- The kinds of events by what becomes of them, read from the rows and not from the code of `decode`:
-- the kinds that each row is for, and the kinds that are known but kept out of the database.
use midgard_rs.Common.{List, [], ◌∷◌, ◌++◌}
use midgard_rs.Common.Text.{Text, codes}
use midgard_rs.Record.Rows as Rows
use midgard_rs.Record.Rows.{Recorded}

-- The kinds of event that a row may come from.
abbrev pub kinds_of : Recorded → List Text
kinds_of (Rows.swap v) = codes "swap" ∷ []
kinds_of (Rows.stake v) = codes "add_liquidity" ∷ codes "add" ∷ []
kinds_of (Rows.withdraw v) = codes "withdraw" ∷ []
kinds_of (Rows.pool v) = codes "pool" ∷ []
kinds_of (Rows.fee v) = codes "fee" ∷ []
kinds_of (Rows.gas v) = codes "gas" ∷ []
kinds_of (Rows.rewards v) = codes "rewards" ∷ []
kinds_of (Rows.outbound v) = codes "outbound" ∷ []
kinds_of (Rows.refund v) = codes "refund" ∷ []
kinds_of (Rows.add v) = codes "donate" ∷ []
kinds_of (Rows.transfer v) = codes "transfer" ∷ []
kinds_of (Rows.bond v) = codes "bond" ∷ []
kinds_of (Rows.pending_liquidity v) = codes "pending_liquidity" ∷ []
kinds_of (Rows.errata v) = codes "errata" ∷ []
kinds_of (Rows.set_mimir v) = codes "set_mimir" ∷ []
kinds_of (Rows.mint_burn v) = codes "mint_burn" ∷ []
kinds_of (Rows.pool_balance_change v) = codes "pool_balance_change" ∷ []
kinds_of (Rows.slash v) = codes "slash" ∷ []
kinds_of (Rows.switch v) = codes "switch" ∷ []
kinds_of (Rows.active_vault v) = codes "ActiveVault" ∷ []
kinds_of (Rows.inactive_vault v) = codes "InactiveVault" ∷ []
kinds_of (Rows.node_status v) = codes "UpdateNodeAccountStatus" ∷ []

-- Kinds that move the balances of a pool.
abbrev pool_kinds : List Text
pool_kinds =
    codes "swap"
    ∷ codes "add"
    ∷ codes "add_liquidity"
    ∷ codes "donate"
    ∷ codes "withdraw"
    ∷ codes "fee"
    ∷ codes "gas"
    ∷ codes "rewards"
    ∷ codes "slash"
    ∷ codes "errata"
    ∷ codes "pool_balance_change"
    ∷ codes "pending_liquidity"
    ∷ []

-- Kinds of transfers in and out, of the state of pools and nodes, and of settings.
abbrev state_kinds : List Text
state_kinds =
    codes "outbound"
    ∷ codes "refund"
    ∷ codes "transfer"
    ∷ codes "bond"
    ∷ codes "switch"
    ∷ codes "mint_burn"
    ∷ codes "pool"
    ∷ codes "set_mimir"
    ∷ codes "ActiveVault"
    ∷ codes "InactiveVault"
    ∷ codes "UpdateNodeAccountStatus"
    ∷ []

abbrev pub stored_kinds : List Text
stored_kinds = pool_kinds ++ state_kinds

-- Kinds of the bank of the chain.
abbrev bank_kinds : List Text
bank_kinds =
    codes "tx"
    ∷ codes "message"
    ∷ codes "burn"
    ∷ codes "mint"
    ∷ codes "coin_spent"
    ∷ codes "coin_received"
    ∷ codes "coinbase"
    ∷ []

-- Kinds of contracts and the clients of other chains.
abbrev contract_kinds : List Text
contract_kinds =
    codes "wasm"
    ∷ codes "store_code"
    ∷ codes "pin_code"
    ∷ codes "execute"
    ∷ codes "instantiate"
    ∷ codes "reply"
    ∷ codes "create_client"
    ∷ codes "update_client"
    ∷ codes "connection_open_init"
    ∷ codes "oracle_price"
    ∷ []

-- Kinds of keys, vaults and solvency.
abbrev key_kinds : List Text
key_kinds =
    codes "tss_keygen"
    ∷ codes "tss_keygen_success"
    ∷ codes "tss_keygen_failure"
    ∷ codes "tss_keysign"
    ∷ codes "asgard_fund_yggdrasil"
    ∷ codes "vault_over_solvency"
    ∷ codes "security"
    ∷ []

-- Kinds of nodes, their votes and upgrades.
abbrev node_kinds : List Text
node_kinds =
    codes "new_node"
    ∷ codes "set_ip_address"
    ∷ codes "set_node_keys"
    ∷ codes "set_version"
    ∷ codes "set_node_mimir"
    ∷ codes "version"
    ∷ codes "validator_request_leave"
    ∷ codes "slash_points"
    ∷ codes "rebond"
    ∷ codes "approve_upgrade"
    ∷ []

-- Kinds of accounts beside the pools.
abbrev account_kinds : List Text
account_kinds =
    codes "tcy_claim"
    ∷ codes "tcy_distribution"
    ∷ codes "tcy_stake"
    ∷ codes "tcy_unstake"
    ∷ codes "rune_pool_deposit"
    ∷ codes "rune_pool_withdraw"
    ∷ codes "secured_asset_deposit"
    ∷ codes "secured_asset_withdraw"
    ∷ codes "trade_account_deposit"
    ∷ codes "trade_account_withdraw"
    ∷ codes "loan_open"
    ∷ codes "loan_repayment"
    ∷ codes "thorname"
    ∷ codes "affiliate_fee"
    ∷ []

-- Kinds of swaps under way, and schedules.
abbrev schedule_kinds : List Text
schedule_kinds =
    codes "streaming_swap"
    ∷ codes "limit_swap"
    ∷ codes "limit_swap_close"
    ∷ codes "scheduled_outbound"
    ∷ codes "schedule_start"
    ∷ codes "schedule_add"
    ∷ codes "schedule_end"
    ∷ codes "failed_refund"
    ∷ codes "pending_liquidity_slash"
    ∷ []

abbrev pub quiet_kinds : List Text
quiet_kinds =
    bank_kinds
    ++ (contract_kinds ++ (key_kinds ++ (node_kinds ++ (account_kinds ++ schedule_kinds))))
