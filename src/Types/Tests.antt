-- ===== src/Types/Tests.antt =====
-- The errors of internal/types/errors.go on a wrapped timeout.
