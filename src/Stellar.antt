-- ===== src/Stellar.antt =====
-- internal/stellar: the values that cross the boundary with the network (`ScVal`) and the
-- conversions between them and Go values (`Xdr`).
pub mod ScVal
pub mod Xdr
pub mod Registry
pub mod Events
pub mod Toy
pub mod PriceBook
pub mod Channel
pub mod Auth
pub mod Rpc
pub mod Invoke
