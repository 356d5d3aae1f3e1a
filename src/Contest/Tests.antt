-- ===== src/Contest/Tests.antt =====
-- A small contest, and the theorems at it.
use market_feed_platform.Prelude.{ℕ, ◌+◌, ◌*◌, ◌≡◌, refl, none, List, [], ◌∷◌}
use market_feed_platform.Prelude.Int.{pos, ◌+ℤ◌, ◌-ℤ◌}
use market_feed_platform.Contest.{
  buy, sell, Entry, deposit, fill, Config, Request, Order, Ledger, empty, existing, place, settle,
  order_of, cash_of, position_of, costs, reject, cash_delta_of, filled_position, order_row,
  fill_row, write_journal, last_hash, add_cash, upsert, signup, join, used_by, use_invite,
  has_nickname, create_invites, insert_codes,
}
use market_feed_platform.Contest.Integrity.{integrity}
use market_feed_platform.Contest.Operations.{
  Call, call_place, call_signup, call_invites, apply, run, integrity-run,
}
use market_feed_platform.Contest.Again.{place_again}

abbrev config : Config
config = record { initial_cash = 1_000_000; fee_ppm = 150; tax_ppm = 2000 }

-- A stand-in for the hash of `_chain`.
abbrev chain_stub : ℕ → ℕ → Entry → ℕ
chain_stub prev ts (deposit pid a) = prev * 31 + ts + pid + a
chain_stub prev ts (fill pid f) = prev * 31 + ts + pid + f.order_id + 7

abbrev buy_ten : Request
buy_ten = record {
  pid = 1;
  client_order_id = 77;
  symbol = 5930;
  side = buy;
  qty = 10;
  price = 70_000;
}

abbrev sell_four : Request
sell_four = record buy_ten { client_order_id = 78; side = sell; qty = 4; price = 71_000 }

abbrev joined : Ledger
joined = run chain_stub config (call_invites (501 ∷ []) ∷ call_signup 1 501 9 ∷ []) empty

abbrev calls : List Call
calls =
    call_invites (501 ∷ 502 ∷ [])
    ∷ call_signup 1 501 9
    ∷ call_place 2 buy_ten
    ∷ call_place 3 buy_ten
    ∷ call_place 4 sell_four
    ∷ call_place 5 (record sell_four { client_order_id = 79; qty = 90 })
    ∷ []

-- 1,000,000 - 700,105 + 284,000 - 42 - 568
cash_after : (run chain_stub config calls empty).accounts ≡ (1, pos 583_285) ∷ []
unfolding run apply create_invites insert_codes signup join place settle order_of cash_of
    position_of costs reject cash_delta_of filled_position order_row fill_row write_journal
    last_hash add_cash upsert used_by use_invite has_nickname ◌+ℤ◌ ◌-ℤ◌
cash_after = refl

integrity-run_example : integrity chain_stub (run chain_stub config calls empty) ≡ []
integrity-run_example = integrity-run chain_stub config calls

abbrev first_order : Order
first_order = record {
  id = 1;
  participant_id = 1;
  client_order_id = 77;
  symbol = 5930;
  side = buy;
  qty = 10;
  price = 70_000;
  amount = 700_000;
  fee = 105;
  tax = 0;
  reason = none;
  ts = 2;
}

-- The same order is sent again, for another quantity, after another one and a sign-up.
abbrev between : List Call
between =
    call_place 3 (record buy_ten { client_order_id = 901; qty = 1 }) ∷ call_signup 4 778 9 ∷ []

abbrev at_first : Ledger
at_first = (place chain_stub config 2 buy_ten joined).1

place_again_example :
    place chain_stub config 5 (record buy_ten { qty = 3 }) (run chain_stub config between at_first)
    ≡ (existing first_order, run chain_stub config between at_first)
unfolding run apply create_invites insert_codes signup join place settle order_of cash_of
    position_of costs reject order_row fill_row write_journal last_hash used_by use_invite
    has_nickname
place_again_example =
    place_again chain_stub config 2 5 buy_ten (record buy_ten { qty = 3 }) between joined
      first_order refl refl refl
