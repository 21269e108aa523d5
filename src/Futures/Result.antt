-- ===== src/Futures/Result.antt =====
-- tasks/futures/fun/exe/result/types/result.hpp: a value or an error.

-- `Result<T>`, with the errors `E`.
pub data Result (E T : Type 0) : Type 0 where
  ok : T → Result E T
  err : E → Result E T
