-- ===== src/Message/Tests.antt =====
-- Messages of core/message.cpp on concrete values.
mod Wires
