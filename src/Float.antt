-- ===== src/Float.antt =====
-- Python's `float`, as the code uses it: literals, `+ - * /`, unary minus, `<` and `<=`, `round`,
-- `math.floor`, `math.ceil`, `math.sqrt` and `0.5 ** x`.
-- The program computes in binary doubles, so its values are an abstract carrier here and the
-- models take the operations as an instance. What a theorem needs of them is the record IsFloat:
-- each law is one that finite IEEE doubles have, with the two zeros identified (a rounded operation
-- is monotone, `x - x` is 0, the order is total away from NaN). Nothing claims that rounded sums are
-- associative or that products are exact; a theorem that needs exact arithmetic at some values says
-- so in a hypothesis of its own.
mod Order
mod Scaled
pub use Order.*
unfoldable pub use Scaled.*
