-- ===== src/Tests/SpeedWitness.antt =====
-- The theorem on the speed test at a concrete file system, with an old file at the path of the test file.
