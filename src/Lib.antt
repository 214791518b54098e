-- ===== src/Lib.antt =====
-- hzcc compiles C programs to JVM assembly. A source text is cut into tokens (hzcc/parser/lexical),
-- the tokens are parsed into a tree (hzcc/parser/syntax), which the code generator visits
-- (hzcc/codegen). This library models the analysis of the text, the token list between it and the
-- parser, the parsers of expressions and statements, the semantic analysis of expressions, the
-- optimization passes, and of the generator the labels, the variables, and the visits that count the
-- slots of the operand stack.
--
-- Prelude: the shared names; Boolean tests, lists, texts as lists of byte values, and signed numbers.
-- Token: hzcc/parser/common and the tables of hzcc/enums.h.
--   Token.Kinds is TokenType by its values; Token.Tables has the tables of symbols and words;
--   Token.Symbols is hzcc/parser/lexical/utils/symbol_utils.h; Token.Value is Token with to_str.
--   Token.Symbols.Search and Token.Symbols.Spelling have what is proved about them.
-- Lexer: hzcc/parser/lexical/LexicalParser.cc.
--   Lexer.State is the context (AnalyzeCtx) with the token list, which each handler takes and gives
--   back; Lexer.Words has SymbolHandler, CommentHandler and the words of AnalyzeLine; Lexer.Literals
--   has StrLitHandler and CharLitHandler; Lexer.Stoll and Lexer.Number have NumLitHandler;
--   Lexer.Line is AnalyzeLine and Lexer.Source is ParseToToken.
--   Lexer.Advance and its children are about the order of the tokens and the end of the analysis;
--   Lexer.Strings, Lexer.Comments, Lexer.Integers and Lexer.Printed are about single handlers.
-- Syntax: hzcc/parser/syntax/parser/statement_parser.cc, from ParseCommaExpr to ParseAccessExpr.
--   Syntax.Tokens is hzcc/utils/cached_list.h; Syntax.Tree has the nodes of hzcc/ast/expr/Expr.h and the
--   constructors that store the operands of commas, shifts and bitwise operators in the other order;
--   Syntax.Names has the types in scope (hzcc/ast/SymbTbl.cc, hzcc/ast/CompilationUnit.cc) and
--   ParseTypeName; Syntax.Operand and Syntax.Operators have one function for each function of the
--   source, with the calls that come behind a token as arguments; Syntax.Parser ties them together.
--   Syntax.Progress and its children are about what the parser takes and its fuel. Syntax.Grammar is a
--   grammar of operators with the trees of its texts, and its children relate it to the parser.
--   Syntax.Lookup is about the names in scope and the token list.
-- Syntax.Statements: hzcc/parser/syntax/parser/statements, Statement::parse_impl, the map of
--   hzcc/parser/syntax/parser/parser_factory.h and GenerateAST of hzcc/parser/syntax/syntax_impl.cc.
--   Syntax.Statements has the tree and the state, which holds the tokens, the scopes and the flag for
--   loops; Parts, Control and Factory have one function for each parser, which takes the map as an
--   argument, and the function that ties them. Shrinks, Total, Loops and Straight are about the tokens
--   that they take, their fuel, the flag, and the programs that are read. The type of a condition is a
--   parameter, for the tree of the parser has no types here, and the state behind an error is not kept.
-- Codegen: Codegen.Labels is hzcc/codegen/LabelManager.cc, Codegen.Analyzer the scopes of
--   hzcc/codegen/jvm/FuncAnalyzer.cc, Codegen.Stack is hzcc/codegen/jvm/StackManager.cc, the variables
--   of a class with their instructions. Codegen.Visits has the visits of the nodes of
--   hzcc/codegen/jvm/FuncAnalyzer.cc with the macros of hzcc/codegen/jvm/utils/macro.h: a state holds the
--   flags, the height of the stack, its maximum and the return stack. Its children Heights, Operands,
--   Assigns and Places are about the steps, Values and Statements describe the nodes by what they need,
--   Raises and Balance are about their visits, Flags and Keeping about all visits. The children of each
--   have what is proved about it.
-- Semantic: hzcc/parser/semantic_analyzer.cc, the visits of expressions. Semantic has the types by their
--   addresses (hzcc/ast/type/Type.h), the tree with the type of each node (hzcc/ast/expr/Expr.h) and
--   Cast::apply (hzcc/ast/cast/Cast.cc); Semantic.Checks has the visits. The tree is the one of the parser
--   with what the visits ask for. Semantic.Accepted describes the expressions that are accepted, and Sound,
--   Typed, Complete and Decided relate the visits to it.
-- Optimization: hzcc/optimization, the manager of passes and its two passes over the statements of a
--   function, with what is proved about them below it.
-- Examples: the theorems at concrete inputs.
--
-- Results are values: a diagnostic is an error with its position, a read past the end that C++
-- leaves undefined is a result of its own, and so are LOG(FATAL) and the one loop that does not
-- end: that of peek on a qualifier, which takes the same token over and over. Loops that are not
-- structural take fuel: a line's loops take its length and one or two rounds more, the parser of
-- expressions and its loops the number of tokens and one, the parsers of statements twice the
-- number of tokens and three. The theorems on termination are about this fuel and about the loop of
-- peek.
--
-- Not modelled: the texts of the messages and the warnings; std::stold, of which only the question
-- whether a number is in range matters and which is a parameter; the pool that shares equal strings
-- of tokens; the qualifiers of types in the parser; the parser of declarations; the semantic analysis of
-- declarations and statements, and the rules of casts; the instructions that the code generator prints
-- for the nodes; the overflow of an int in the height of the stack; the count of labels as shared by
-- several managers of labels, of which the compiler has one; what std::stoi and std::stod throw on the
-- text of a literal in the semantic analysis, where literals have no text.
pub mod Prelude
pub mod Token
pub mod Lexer
pub mod Syntax
pub mod Codegen
pub mod Optimization
pub mod Semantic
pub mod Examples
