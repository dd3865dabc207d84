-- ===== src/Control.antt =====
-- control/src: the authorities of the control plane, which keep their state in the tables of one
-- database. A table is the list of its rows; an operation is given the rows that it reads and returns
-- those that it leaves, so that a transaction that throws leaves nothing behind.
pub mod Rows
pub mod Runs
pub mod Promotion
pub mod Requests
pub mod Fleet
pub mod Changes
