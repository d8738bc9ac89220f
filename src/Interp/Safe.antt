-- ===== src/Interp/Safe.antt =====
-- `parse_watch_expression` of src/interp.rs on any text: it ends, never panics, and gives a
-- well-formed syntax tree.
use nnd.Base.{◌<◌, length}
use nnd.Interp.Result.{Result, M, then_in}
use nnd.Interp.Syntax.{Expression}
use nnd.Interp.WellFormed.{WfTree}

-- The root is a node, every child of a node is a node, and each node has at least as many as its
-- kind needs.
abbrev pub WfExpression : Expression → Type 0
WfExpression e = (e.root < length e.ast) × WfTree e.ast
