-- ===== src/Carts/Kept.antt =====
-- Every request about a cart keeps the carts consistent.
use wer_te_backend.Prelude.{List, [], ◌∷◌}
use wer_te_backend.Domain.Entities.{User}
use wer_te_backend.Domain.Store.{Db}
use wer_te_backend.Domain.Reads.{commit_after-keeps}
use wer_te_backend.Carts.Lookup.{resolve_owned_cart_item, resolve_cart_aggregate_or_throw}
use wer_te_backend.Carts.Mutation.{
  CartRun, prepare_addition, prepare_clearing, cleared_aggregate, add_current_customer_cart_item,
  update_current_customer_cart_item, remove_current_customer_cart_item,
  clear_current_customer_branch_cart, commit_addition, open_cart_id, commit_change, commit_removal,
  commit_clearing, prepare_change,
}
use wer_te_backend.Carts.Totals.{AreConsistent}
use wer_te_backend.Carts.Requests.{CartCommand, run_cart, run_carts}
use wer_te_backend.Carts.Consistency.{
  commit_addition-AreConsistent, commit_change-AreConsistent, commit_removal-AreConsistent,
  commit_clearing-AreConsistent, resolve_owned_cart_item-IsOwned, prepare_change-owned,
}

run_cart-AreConsistent :
    (run : CartRun) (u : User) (c : CartCommand) (db : Db)
    → AreConsistent db
    → AreConsistent (run_cart run u c db).1
unfolding add_current_customer_cart_item update_current_customer_cart_item
    remove_current_customer_cart_item clear_current_customer_branch_cart
run_cart-AreConsistent run u (CartCommand.add_item branch_id input) db h =
    commit_after-keeps AreConsistent (prepare_addition u branch_id input)
      (commit_addition run branch_id input.quantity)
      (λ found. resolve_cart_aggregate_or_throw (open_cart_id run found.active_cart)) db
      (λ found e. commit_addition-AreConsistent run branch_id input.quantity found db h) h
run_cart-AreConsistent run u (CartCommand.update_item item_id input) db h =
    commit_after-keeps AreConsistent (prepare_change u item_id input)
      (commit_change run.now input.quantity)
      (λ found. resolve_cart_aggregate_or_throw found.owned.cart.id) db
      (λ found e.
        commit_change-AreConsistent run.now input.quantity found db
          (resolve_owned_cart_item-IsOwned u item_id found.owned db
            (prepare_change-owned u item_id input found db e))
          h)
      h
run_cart-AreConsistent run u (CartCommand.remove_item item_id) db h =
    commit_after-keeps AreConsistent (resolve_owned_cart_item u item_id) (commit_removal run.now)
      (λ owned. resolve_cart_aggregate_or_throw owned.cart.id) db
      (λ owned e.
        commit_removal-AreConsistent run.now owned db
          (resolve_owned_cart_item-IsOwned u item_id owned db e) h)
      h
run_cart-AreConsistent run u (CartCommand.clear_cart branch_id) db h =
    commit_after-keeps AreConsistent (prepare_clearing u branch_id) (commit_clearing run.now)
      (cleared_aggregate branch_id) db (λ o e. commit_clearing-AreConsistent run.now o db h) h

-- Any sequence of requests to add, change or remove cart items or to clear a cart keeps the carts
-- consistent: the stored quantity, subtotal and total of each are the sums over its items, and the
-- line total of each item is its unit price times its quantity.
pub run_carts-AreConsistent :
    (cs : List (CartRun × User × CartCommand)) (db : Db)
    → AreConsistent db
    → AreConsistent (run_carts cs db)
run_carts-AreConsistent [] db h = h
run_carts-AreConsistent ((run, u, c) ∷ cs) db h =
    run_carts-AreConsistent cs (run_cart run u c db).1 (run_cart-AreConsistent run u c db h)
