-- ===== src/Connector/Valid.antt =====
-- Which datagrams cn_proc_receive of src/common/cn_proc.c takes.
