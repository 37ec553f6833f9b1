-- ===== src/Examples.antt =====
-- Concrete runs of the services: a delivery order and a pickup order, with their stock, one rider and
-- one cash payment; a branch with a menu and a customer with a cart.
pub mod Data
pub mod Market
pub mod Carts
pub mod Checkout
pub mod Events
pub mod Runs
pub mod Finance
