-- ===== src/Fetch/Answers.antt =====
-- What a program reads out of an answer.
