-- ===== src/Python.antt =====
-- rust/tenzorbus-py/src/lib.rs: the objects that Python sees. What they do to the ring is what the
-- ring's handles do; what they add is the count of the views of a slot, which guards its release and its commit.
pub mod Raise
pub mod Lease
pub mod Writer
pub mod Publish
pub mod Handle
pub mod RingClass
