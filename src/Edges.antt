-- ===== src/Edges.antt =====
-- Whether an approved edge fires now (libs/quant/edge_instance.py, with the clusters of
-- libs/data/sec_insider.py).
pub mod Clusters
pub mod Detect
pub mod Groups
pub mod Fires
pub mod Quarters
