-- ===== src/Carts/Requests.antt =====
-- The requests about carts as commands.
use wer_te_backend.Prelude.{ℕ, List, [], ◌∷◌}
use wer_te_backend.Domain.Entities.{User}
use wer_te_backend.Domain.Store.{Db, Action}
use wer_te_backend.Carts.Lookup.{CartAggregate}
use wer_te_backend.Carts.Mutation.{
  CartRun, AddCartItemInput, UpdateCartItemInput, add_current_customer_cart_item,
  update_current_customer_cart_item, remove_current_customer_cart_item,
  clear_current_customer_branch_cart,
}

-- A request about a cart.
pub data CartCommand : Type 0 where
  add_item : ℕ → AddCartItemInput → CartCommand
  update_item : ℕ → UpdateCartItemInput → CartCommand
  remove_item : ℕ → CartCommand
  clear_cart : ℕ → CartCommand

abbrev pub run_cart : CartRun → User → CartCommand → Action CartAggregate
run_cart run u (CartCommand.add_item branch_id input) =
    add_current_customer_cart_item run u branch_id input
run_cart run u (CartCommand.update_item item_id input) =
    update_current_customer_cart_item run u item_id input
run_cart run u (CartCommand.remove_item item_id) = remove_current_customer_cart_item run u item_id
run_cart run u (CartCommand.clear_cart branch_id) =
    clear_current_customer_branch_cart run u branch_id

-- Requests of several users, one after the other; a refused one leaves the tables alone.
abbrev pub run_carts : List (CartRun × User × CartCommand) → Db → Db
run_carts [] db = db
run_carts ((run, u, c) ∷ cs) db = run_carts cs (run_cart run u c db).1
