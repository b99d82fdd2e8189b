-- ===== src/Cluster/Removal/Stuck.antt =====
-- internal/cluster/remove.go: the operations that the cleanup keeps.
