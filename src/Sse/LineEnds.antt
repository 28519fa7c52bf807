-- ===== src/Sse/LineEnds.antt =====
-- Carriage returns: what a read makes of `\r\n`, and of a `\r\n` that the network cuts in two.
