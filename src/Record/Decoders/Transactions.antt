-- ===== src/Record/Decoders/Transactions.antt =====
-- crates/midgard-record/src/events.rs: decoders of the events that move coins outside the pools.
use midgard_rs.Common.{
  Option, none, some, List, [], ◌∷◌, map, Result, ok, to_option, map_err, ◌>>=◌,
}
use midgard_rs.Common.Int.{ℤ, pos}
use midgard_rs.Common.Text.{Text, codes}
use midgard_rs.Chain.Types.{Event}
use midgard_rs.Record.Coin.{Coin, parse_coins, parse_cosmos_coins}
use midgard_rs.Record.Attributes.{
  DecodeError, coin, required, optional, text, int, coin_of, or_empty,
}
use midgard_rs.Record.Rows.{Outbound, Refund, Transfer, Bond, Switch}

unfoldable pub outbound : Event → Result DecodeError Outbound
unfolding text required optional coin_of
outbound e = do
  let k = codes "outbound"
  c ← coin_of e k (codes "coin")
  in_tx ← required e k (codes "in_tx_id")
  ok (record {
    tx = optional e (codes "id");
    chain = text e (codes "chain");
    from_addr = text e (codes "from");
    to_addr = text e (codes "to");
    asset = c.asset;
    asset_e8 = c.amount_e8;
    memo = text e (codes "memo");
    in_tx = in_tx;
  })

-- `Coin::default()`
abbrev pub default_coin : Coin
default_coin = record { asset = []; amount_e8 = pos 0 }

abbrev pub first_or_default : List Coin → Coin
first_or_default [] = default_coin
first_or_default (c ∷ cs) = c

-- `coins.get(1)`
abbrev pub second : List Coin → Option Coin
second [] = none
second (c ∷ []) = none
second (c ∷ d ∷ cs) = some d

abbrev pub asset_of : Option Coin → Option Text
asset_of none = none
asset_of (some c) = some c.asset

abbrev pub amount_of : Option Coin → ℤ
amount_of none = pos 0
amount_of (some c) = c.amount_e8

unfoldable pub refund : Event → Result DecodeError Refund
unfolding text optional int parse_coins
refund e = do
  let k = codes "refund"
  coins ← map_err (coin k) (parse_coins (text e (codes "coin")))
  code ← int e k (codes "code")
  let first = first_or_default coins
  ok (record {
    tx = text e (codes "id");
    chain = text e (codes "chain");
    from_addr = text e (codes "from");
    to_addr = text e (codes "to");
    asset = first.asset;
    asset_e8 = first.amount_e8;
    asset_2nd = asset_of (second coins);
    asset_2nd_e8 = amount_of (second coins);
    memo = optional e (codes "memo");
    code = code;
    reason = text e (codes "reason");
  })

abbrev pub transfer_of : Event → Coin → Transfer
transfer_of e c = record {
  from_addr = text e (codes "sender");
  to_addr = text e (codes "recipient");
  asset = c.asset;
  amount_e8 = c.amount_e8;
}

unfoldable pub transfer : Event → Result DecodeError (List Transfer)
unfolding text required parse_cosmos_coins
transfer e = do
  let k = codes "transfer"
  raw ← required e k (codes "amount")
  coins ← map_err (coin k) (parse_cosmos_coins raw)
  ok (map (transfer_of e) coins)

unfoldable pub bond : Event → Result DecodeError Bond
unfolding text optional int coin_of
bond e = do
  let k = codes "bond"
  let c = to_option (coin_of e k (codes "coin"))
  e8 ← int e k (codes "amount")
  ok (record {
    tx = text e (codes "id");
    chain = optional e (codes "chain");
    from_addr = optional e (codes "from");
    to_addr = optional e (codes "to");
    asset = asset_of c;
    asset_e8 = amount_of c;
    memo = optional e (codes "memo");
    bond_type = text e (codes "bond_type");
    e8 = e8;
  })

unfoldable pub switch : Event → Result DecodeError Switch
unfolding text optional coin_of
switch e =
    let k = codes "switch" in
    let burn = to_option (coin_of e k (codes "burn")) in
    let mint = to_option (coin_of e k (codes "mint")) in
    ok (record {
      tx = optional e (codes "txid");
      from_addr = text e (codes "from");
      to_addr = text e (codes "to");
      burn_asset = or_empty (asset_of burn);
      burn_e8 = amount_of burn;
      mint_asset = or_empty (asset_of mint);
      mint_e8 = amount_of mint;
    })
