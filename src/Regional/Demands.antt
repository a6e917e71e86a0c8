-- ===== src/Regional/Demands.antt =====
-- regional_market.py: `_allocate_demand_receipts`. What the kernel consumed for a need is given to the
-- demands of that need, in their order.
pub mod Allocation
use Prim.Native.Nat.{Ordering}
use Prim.Native.String.{compare as compare_text}
use baen_economy_engine.Prelude.{
  ℕ, Bool, true, false, ◌||◌, not, Option, none, some, String, List, [], ◌∷◌, ◌++◌, map, length,
  ◌==◌, str_eq, if◌then◌else◌, ok, err, ◌>>=◌, ◌>>◌, raise_if,
}
use baen_economy_engine.Prelude.Int.{ℤ}
use baen_economy_engine.Prelude.Dict.{Dict, contains, lookup, insert, string_eq, pair_eq}
use baen_economy_engine.Decimal.Number.{Decimal, zero_dec, lt_dec, is_zero, min_dec}
use baen_economy_engine.Decimal.Context.{sub}
use baen_economy_engine.Stockflow.Types.{NeedResult, Snapshot, EconomyModel}
use baen_economy_engine.Stockflow.Sorting.{sorted, ◌then_by◌, compare_int}
use baen_economy_engine.Stockflow.Books.{amount}
use baen_economy_engine.Stockflow.Needs.{NeedKey, int_eq}
use baen_economy_engine.Stockflow.Advance.{RunResult}
use baen_economy_engine.Regional.Types.{
  Regional, RegionalError, needs_mismatch, unallocated, calculated,
}
use baen_economy_engine.Regional.Bids.{
  DemandBid, compare_demand, DemandReceipt, demand_receipt_post_init, compare_receipt,
}
use baen_economy_engine.Regional.Prices.{price_at}

abbrev pub need_key : DemandBid → NeedKey
need_key d = (d.priority, (d.site_id, d.commodity_id))

abbrev list_or_empty : Option (List DemandBid) → List DemandBid
list_or_empty none = []
list_or_empty (some ds) = ds

-- `groups[key].append(item)`, for each of the demands
unfoldable pub group_demands :
    List DemandBid → Dict NeedKey (List DemandBid) → Dict NeedKey (List DemandBid)
group_demands [] groups = groups
group_demands (d ∷ ds) groups =
    group_demands ds
      (insert (need_key d) (list_or_empty (lookup (need_key d) groups) ++ (d ∷ [])) groups)

abbrev pub compare_group : NeedKey × List DemandBid → NeedKey × List DemandBid → Ordering
compare_group ((p, (s, c)), _) ((p', (s', c')), _) =
    compare_int p p' then_by compare_text s s' then_by compare_text c c'

-- The loop over the demands of one need: what is left after them, and what each consumed.
unfoldable pub allocate_group :
    List DemandBid → Decimal → Dict String Decimal → Regional (Decimal × Dict String Decimal)
allocate_group [] remaining consumed = ok (remaining, consumed)
allocate_group (d ∷ ds) remaining consumed = do
  left ← calculated (sub remaining (min_dec d.quantity remaining))
  allocate_group ds left (insert d.demand_id (min_dec d.quantity remaining) consumed)

-- The loop over the needs and their results; there are as many of the one as of the other.
unfoldable pub allocate_groups :
    List (NeedKey × List DemandBid)
    → List NeedResult
    → Dict String Decimal
    → Regional (Dict String Decimal)
allocate_groups [] [] consumed = ok consumed
allocate_groups ((key, ds) ∷ groups) (r ∷ results) consumed = do
  raise_if (not (str_eq r.site_id (key.1.0)) || not (str_eq r.commodity_id (key.1.1)))
      needs_mismatch
  allocated ← allocate_group (sorted compare_demand ds) r.consumed_quantity consumed
  raise_if (not (is_zero (allocated.0))) unallocated
  allocate_groups groups results (allocated.1)
allocate_groups _ _ consumed = err needs_mismatch

unfoldable pub disposition_of : Bool → Decimal → Decimal → String
disposition_of admitted consumed shortage =
    if not admitted
    then "reservation_price_below_local_market"
    else if lt_dec zero_dec shortage
    then (if lt_dec zero_dec consumed then "partially_filled" else "unfilled")
    else "filled"

abbrev pub demand_id_of : DemandBid → String
demand_id_of d = d.demand_id

module _ (m : EconomyModel) (opening closing : Snapshot) where
  -- The price after the month, of a demand that was admitted.
  price_after : Bool → Decimal → DemandBid → Regional Decimal
  price_after true before d = price_at m closing d.site_id d.commodity_id
  price_after false before d = ok before

  -- The receipt of one demand.
  unfoldable pub receipt_for : Bool → Decimal → DemandBid → Regional DemandReceipt
  unfolding price_after
  receipt_for admitted consumed d = do
    before ← price_at m opening d.site_id d.commodity_id
    after ← price_after admitted before d
    shortage ← calculated (sub d.quantity consumed)
    demand_receipt_post_init (record {
      demand_id = d.demand_id;
      buyer_entity_id = d.buyer_entity_id;
      site_id = d.site_id;
      commodity_id = d.commodity_id;
      priority = d.priority;
      requested_quantity = d.quantity;
      consumed_quantity = consumed;
      shortage_quantity = shortage;
      price_before_gp_per_unit = before;
      price_after_gp_per_unit = after;
      reservation_price_gp_per_delivered_unit = d.reservation_price_gp_per_delivered_unit;
      disposition = disposition_of admitted consumed shortage;
    })

  -- What a demand consumed: nothing, if it was not admitted.
  abbrev pub consumed_by : List String → Dict String Decimal → DemandBid → Decimal
  consumed_by admitted consumed d =
      if contains d.demand_id admitted then amount d.demand_id consumed else zero_dec

  unfoldable pub receipts_for :
      List String → Dict String Decimal → List DemandBid → Regional (List DemandReceipt)
  receipts_for admitted consumed [] = ok []
  receipts_for admitted consumed (d ∷ ds) = do
    r ← receipt_for (contains d.demand_id admitted) (consumed_by admitted consumed d) d
    rs ← receipts_for admitted consumed ds
    ok (r ∷ rs)

-- `_allocate_demand_receipts`
unfoldable pub allocate_demand_receipts :
    EconomyModel
    → Snapshot
    → RunResult
    → List DemandBid
    → List DemandBid
    → Regional (List DemandReceipt)
allocate_demand_receipts m opening result demands admitted = do
  let groups = sorted compare_group (group_demands admitted [])
  raise_if (not (length result.needs == length groups)) needs_mismatch
  consumed ← allocate_groups groups result.needs []
  receipts ← receipts_for m opening result.snapshot (map demand_id_of admitted) consumed demands
  ok (sorted compare_receipt receipts)
