-- ===== src/Record/Decoders/Network.antt =====
-- crates/midgard-record/src/events.rs: decoders of the events about the network itself.
use midgard_rs.Common.{Option, none, some, Result, ok, ◌>>=◌}
use midgard_rs.Common.Text.{Text, codes}
use midgard_rs.Chain.Types.{Event, attr}
use midgard_rs.Record.Attributes.{DecodeError, required, text, int, or_empty}
use midgard_rs.Record.Rows.{SetMimir, MintBurn, VaultChange, NodeStatus}

unfoldable pub set_mimir : Event → Result DecodeError SetMimir
unfolding text required
set_mimir e = do
  key ← required e (codes "set_mimir") (codes "key")
  ok (record { key = key; value = text e (codes "value") })

unfoldable pub mint_burn : Event → Result DecodeError MintBurn
unfolding text required int
mint_burn e = do
  let k = codes "mint_burn"
  asset ← required e k (codes "denom")
  asset_e8 ← int e k (codes "amount")
  ok (record {
    asset = asset;
    asset_e8 = asset_e8;
    supply = text e (codes "supply");
    reason = text e (codes "reason");
  })

-- `Option::or_else`
abbrev pub or_else : Option Text → Option Text → Option Text
or_else none b = b
or_else (some a) b = some a

unfoldable pub vault : Event → Result DecodeError VaultChange
unfolding attr
vault e =
    let addr =
      or_else (attr e (codes "add new asgard vault")) (attr e (codes "set_asgard_vault")) in
    ok (record { add_asgard_addr = or_empty addr })

unfoldable pub node_status : Event → Result DecodeError NodeStatus
unfolding text
node_status e = ok (record {
  node_addr = text e (codes "Address");
  former = text e (codes "Former:");
  current = text e (codes "Current:");
})
