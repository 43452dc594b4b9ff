-- ===== src/Custody.antt =====
-- internal/custody: verifying a payer's commitment (`Verify`), the commitments table with its
-- trigger and constraints (`Table`), recording a commitment there (`Submit`), and inserts into the
-- table that overlap (`Overlap`).
pub mod Verify
pub mod Table
pub mod Submit
pub mod Overlap
