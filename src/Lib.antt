-- ===== src/Lib.antt =====
-- A model of the core of mea-edomus-lite, a home automation server in C, and what holds of it.
--
-- The parts modelled are the rule engine and the utilities that it and the rest of the server call.
-- Each file below names the C file, under src/, that it is about.
--
-- - Text (src/mea_string_utils.c): escaping, trimming, splitting and comparing of strings. A C
--   string is the list of its bytes before the NUL; a function that fills a buffer returns what it
--   leaves there.
-- - Eval (src/mea_eval.c, as it is built, with ONFLYEVAL at 0): the evaluator that src/automator.c
--   calls for the conditions and parameters of its rules. Eval.Lexer is the scanner, Eval.Compile
--   is _evalCalcN and mea_eval_buildStack_alloc, Eval.Run is mea_eval_calcn and
--   mea_eval_calc_numeric, Eval.Cache is the cache and mea_eval_calc_numeric_by_cache. Eval.Tree is
--   the specification: trees of expressions with their value, their text and their postfix code.
-- - Queue (src/mea_queue.c): the linked queue with a cursor that most parts of the server use.
--   Queue.Heap is the memory of its elements, Queue.Segment says what a chain of elements stands
--   for, Queue.Index is the queue's index, which qsort puts in order, and the search in it.
-- - Automator (src/automator.c): the rule engine. Automator.Values are its values,
--   Automator.Calls takes a call of a function apart, Automator.Expr is automator_evalStr with
--   function_call and input_getEdge, Automator.Inputs is the table of the inputs with the numbers
--   that the evaluator knows them by, Automator.Rules is automator_matchInputsRules,
--   Automator.Outputs is automator_playOutputRules with its actions, and Automator.Reload changes
--   the rules. Rules are evaluated over a message and the inputs; what they do to the inputs makes
--   the output rules send messages and start timers.
-- - Enocean (src/interfaces/type_003/enocean.c): the driver of EnOcean devices. Enocean itself has the
--   checksum, the frames and the radio telegrams, Enocean.Receive is _enocean_process_data with
--   _enocean_read_packet, Enocean.Exchange is _enocean_thread with enocean_send_packet, and
--   Enocean.Commands are the requests.
-- - Comio2 (src/interfaces/type_001/comio2.c): the driver of Arduinos. Comio2 itself has the frames
--   that are written, their numbers, the traps and what _comio2_thread does with a frame,
--   Comio2.Read is _comio2_read_frame, Comio2.Replies are the commands with the wait for their
--   replies.
-- - Timer (src/mea_timer.c): timers that are polled, and the requests of the sleeping functions. A
--   reading of the clock is an argument.
-- - Common: names, tests and lemmas that the parts share.
--
-- How the code corresponds to the model. A position in a text is the text from there on. A call
-- ends in a value, in an error with the number that the source stores in *err, or in a fault, which
-- is behaviour that C leaves undefined: a read behind the NUL, a write behind an array, a use of a
-- block that was reallocated, a division by zero in the integers. The variables of one call of
-- _evalCalcN are a Frame, the block of code that its callers share is a Code, and a pointer to that
-- block is the number of reallocations that made it. The static variables of src/mea_eval.c are
-- arguments: the callbacks, and the cache, which is passed on.
--
-- Queues. A pointer is a number, 0 for NULL, and the memory maps pointers to elements. A call
-- ends in a value, in a fault, which is an access to NULL or to no element, or out of fuel. A queue
-- lies outside of that memory and is passed on. The address that malloc returns is an argument, and
-- theorems take it to be fresh. The comparison functions, the function that frees data and qsort
-- are arguments too. Counters wrap at 2^64.
--
-- Rules. A rule, a condition and a parameter are records of what cJSON_GetObjectItem finds in
-- them, an input is found by its name, also where C keeps a pointer to it, and a pointer to a rule
-- is its address. What an evaluation asks of the clock, the timers and the evaluator is a record
-- (Automator.World); what an action calls is a list of effects. The loop over the rules is told by
-- a list in front of the rule that is run, backwards, and the rest. A value without a type keeps
-- the byte that its memory had.
--
-- Lines. The serial line of EnOcean is the list of the bytes that come before a timeout, and the
-- static variables of _enocean_process_data are a record. What _enocean_thread hears while
-- enocean_send_packet waits is a list of packets with their times; a response that comes between the
-- write and the wait, which the source loses, is not in that list. A function's array on the stack,
-- where the source does not initialise it, is an argument.
--
-- The queue of responses of comio2_ad_t is the list of its elements. A char is signed, as on x86. A
-- command waits at most five times, and what comes during each wait is an argument, as is the time.
-- Where the source would read a byte of a response that is too short, the model says so.
--
-- Numbers. Characters, sizes and operators are natural numbers. The C type double and strtod are a
-- parameter (Eval.Double): no arithmetic of floats is assumed, only, where a theorem says so, that
-- strtod reports an end that lies in its text.
--
-- Fuel. The loop of _evalCalcN runs on fuel and is given one unit more than the text is long, since
-- each round reads at least a character. The loops over a queue are given one unit more than
-- its elements, and the search in the index two. mea_unescape is given the length of its text. The
-- loops of automator_matchInputsRules run on fuel too, since some of them do not end; a run that
-- ends needs two units more than the greatest number of a rule. An expression is evaluated to the
-- depth two.
--
-- What is left out. Allocation always succeeds in Eval. The place of an error, which the source
-- stores for a message on the console, is not modelled. uthash is an association list with a key
-- at most once, or in the order of insertion. Of src/automator.c, messages of the log, times of
-- execution, locks and the printing of the inputs are left out. Of enocean.c and comio2.c, opening
-- and reopening the line, errors of reading it, locks and the registration of callbacks are left
-- out. src/mongoose.c and src/cJSON.c are other projects' code.
pub mod Common
pub mod Text
pub mod Eval
pub mod Queue
pub mod Timer
pub mod Automator
pub mod Enocean
pub mod Comio2
