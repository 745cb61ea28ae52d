-- ===== src/Api/Tests.antt =====
-- A query for the depths of a pool, calls of a cache, and pools that price RUNE.
use midgard_rs.Common.{
  ℕ, ◌≡◌, refl, ap, ◌∙◌, Option, none, some, List, [], ◌∷◌, map, Result, ok, err, ok-injective,
  arith,
}
use midgard_rs.Common.Int.{ℤ, pos}
use midgard_rs.Common.Text.{Text, codes}
use midgard_rs.Cursor as Cursor
use midgard_rs.Cursor.{BlockCursor}
use midgard_rs.Record.Writer.{Rows, PendingDepth}
use midgard_rs.Buckets.Generate.{Buckets, generate, generate_span, one}
use midgard_rs.Api.Cache as Cache
use midgard_rs.Api.Cache.{get_or_compute}
use midgard_rs.Api.Cache.History.{AllAnswered, serve, serve-AllAnswered, get_or_compute-once}
use midgard_rs.Api.Query.{buckets, reject_unknown, take_i64}
use midgard_rs.Api.Depths.{
  DepthHistory, history_buckets, depth_history, snapshot_at, items, first_or_default,
  last_or_default,
}
use midgard_rs.Api.Depths.Closing.{IsTiled, depth_history-IsTiled}
use midgard_rs.Api.Answer.{price_from_depths}
use midgard_rs.Api.Answer.Deepest.{IsPrice, price_from_depths-IsPrice}

abbrev id_of : ℤ → ℤ
id_of z = z

abbrev calls : List (ℤ × Result Text ℤ)
calls =
    (pos 7, err (codes "busy"))
    ∷ (pos 7, ok (pos 7))
    ∷ (pos 7, err (codes "busy"))
    ∷ (pos 8, ok (pos 8))
    ∷ []

serve-AllAnswered_example : AllAnswered id_of calls (serve calls Cache.new)
serve-AllAnswered_example =
    serve-AllAnswered id_of calls ((λ v e. cc), ((λ v e. cc), ((λ v e. cc), ((λ v e. cc), tt))))

get_or_compute-once_example :
    get_or_compute {E = Text}
      (pos 7)
      (err (codes "busy"))
      (get_or_compute {E = Text} (pos 7) (ok (pos 49)) none).0
    ≡ ((get_or_compute {E = Text} (pos 7) (ok (pos 49)) none).0, ok (pos 49))
unfolding get_or_compute
get_or_compute-once_example =
    get_or_compute-once (pos 7) (pos 49) (ok (pos 49)) (err (codes "busy")) none refl

abbrev query : List (Text × Text)
query = (codes "to", codes "90") ∷ (codes "from", codes "30") ∷ []

abbrev span : Buckets
span = one (pos 30) (pos 90)

query-span : history_buckets query Cursor.new ≡ ok span
unfolding history_buckets buckets reject_unknown take_i64 generate generate_span
    midgard_rs.Common.Text.text_eq midgard_rs.Common.Text.parse_i64 midgard_rs.Common.Text.one_of
query-span = refl

abbrev depth_row : PendingDepth
depth_row = record {
  pool = codes "BTC.BTC";
  depth = record { asset_e8 = pos 5; rune_e8 = pos 9; synth_e8 = pos 1; units = pos 2 };
  block_timestamp = pos 60000000000;
}

abbrev db : Rows
db = record { blocks = []; events = []; depths = depth_row ∷ [] }

abbrev history : DepthHistory
history =
    let snapshots = map (snapshot_at db (codes "BTC.BTC")) span.timestamps in
    record {
      intervals = items span.timestamps snapshots;
      opening = first_or_default snapshots;
      closing = last_or_default snapshots;
    }

depth_history-IsTiled_example :
    (bs : Buckets) × (history_buckets query Cursor.new ≡ ok bs)
    × IsTiled db (codes "BTC.BTC") bs.timestamps history.intervals
unfolding depth_history
depth_history-IsTiled_example =
    depth_history-IsTiled db Cursor.new (codes "BTC.BTC") query history (rw query-span refl)

abbrev anchors : List (Text × ℤ × ℤ)
anchors =
    (codes "SHALLOW", pos 1000, pos 100)
    ∷ (codes "DEEP", pos 50000, pos 10000)
    ∷ (codes "HALF", pos 0, pos 999999)
    ∷ []

price_from_depths-IsPrice_example : IsPrice anchors (price_from_depths anchors)
price_from_depths-IsPrice_example = price_from_depths-IsPrice anchors
