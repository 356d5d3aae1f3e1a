-- ===== src/Orders/Notice.antt =====
-- src/mdfeed/ledger.py: `apply_notice`, one notice of a fill.
use market_feed_platform.Prelude.{
  ℕ, ◌-◌, ◌*◌, Bool, false, not, ◌&&◌, ◌||◌, Option, none, some, List, [], ◌∷◌, ◌++◌, ltb, ◌==◌,
  if◌then◌else◌,
}
use market_feed_platform.Prelude.Bytes.{bytes_eq}
use market_feed_platform.Prelude.Int.{pos}
use market_feed_platform.Orders.{
  is_fillable, Order, notice, Fill, NoticeFill, notice_unmatched, notice_ignored, Ledger, update,
  first,
}
use market_feed_platform.Orders.Reconcile.{fill_order, fill_event}

pub data Noticed : Type 0 where
  applied duplicate unmatched ignored : Noticed

-- `lstrip("0")`
unfoldable pub lstrip_zeros : List ℕ → List ℕ
lstrip_zeros [] = []
lstrip_zeros (c ∷ cs) = if c == 48 then lstrip_zeros cs else c ∷ cs

unfoldable pub has_key : ℕ → List NoticeFill → Bool
has_key key [] = false
has_key key (n ∷ ns) = n.key == key || has_key key ns

unfoldable pub same_odno : List ℕ → Option (List ℕ) → Bool
same_odno want none = false
same_odno want (some odno) = bytes_eq (lstrip_zeros odno) want

unfoldable pub has_odno : ℕ → List ℕ → Order → Bool
has_odno date want o = o.key.trade_date == date && same_odno want o.odno

-- The part of `apply_notice` from the order that was found.
unfoldable pub attach : ℕ → ℕ → ℕ → ℕ → Order → Ledger → Noticed × Ledger
attach now qty price key o l =
    let fill : Fill = record {
      order_id = o.id;
      qty = qty;
      amt = pos (qty * price);
      source = notice;
      ts = now;
    } in
    if not (is_fillable o.state) || qty == 0 || ltb (o.qty - o.filled_qty) qty
    then (
      ignored,
      record l {
        events =
            l.events ++ (record { ts = now; kind = notice_ignored; order_id = some o.id } ∷ []);
      },
    )
    else (
      applied,
      record l {
        notices =
            record { key = key; order_id = o.id; qty = qty; amt = qty * price; ts = now }
            ∷ l.notices;
        fills = l.fills ++ (fill ∷ []);
        orders = update (λ r. r.id == o.id) (fill_order now qty (pos (qty * price))) l.orders;
        events = l.events ++ (fill_event fill ∷ []);
      },
    )

unfoldable pub apply_notice : ℕ → ℕ → List ℕ → ℕ → ℕ → ℕ → Ledger → Noticed × Ledger
apply_notice now date odno qty price key l =
    if has_key key l.notices
    then (duplicate, l)
    else elim (first (has_odno date (lstrip_zeros odno)) l.orders) [
      | none ↦ (
        unmatched,
        record l {
          events = l.events ++ (record { ts = now; kind = notice_unmatched; order_id = none } ∷ []);
        },
      )
      | some o ↦ attach now qty price key o l
    ]
