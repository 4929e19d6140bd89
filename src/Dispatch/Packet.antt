-- ===== src/Dispatch/Packet.antt =====
-- From the packet's JSON text to what the modules do.
