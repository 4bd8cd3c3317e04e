-- ===== src/Alu.antt =====
-- lib/seahorn/BvOpSem2Alu.cc and the instruction visitor of lib/seahorn/BvOpSem2.cc: how an
-- operation on integers becomes a term over Booleans and bit-vectors.
mod Terms
mod Sorts
mod Words
mod Meaning
mod Bounds
mod Ops
mod OneBit
mod Widths
mod Casts
mod Visitor
mod Machine
mod Binary
mod Values
mod Compare
mod Product
mod Exact
mod Overflow
mod Aggregate
mod Fields
mod Insert
mod Execute
mod Simulation
mod Constants
mod Steps
mod Phi
mod Edge
mod Tests
