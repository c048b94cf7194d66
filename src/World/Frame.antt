-- ===== src/World/Frame.antt =====
-- Frame rules: what each action that handlers are built from does not touch.
pub mod Stock
pub mod Payments
pub mod Lines
